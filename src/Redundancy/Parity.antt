-- ===== src/Redundancy/Parity.antt =====
-- What the code packets are: the exclusive or of the data packets of their column, so that each
-- column of the sixteen packets vanishes.
use zxlib.Prelude.{
  ℕ, zero, suc, ◌+◌, ◌-◌, ◌%◌, ◌<◌, ◌≤◌, ◌≡◌, ◌≢◌, refl, ap, ap₂, sym, ◌∙◌, arith, false, bit_xor,
  ltb, ◌==◌, if◌then◌else◌, inl, inr, Bool-cases, ℕ_discrete,
}
use zxlib.Prelude.Family.{update, xor_range, xor_range_ext}
use zxlib.Prelude.Xor.{xor-zero, xor_self}
use zxlib.Prelude.Loop.{for_up_inv}
use zxlib.Package.{Package, package_offset_code}
use zxlib.Package.Stack.{
  PackageStack, package_stack_push, package_stack_xor, package_stack_xor-xor_range,
}
use zxlib.Redundancy.{Redundancy, stack_column, stack_xor_one, redundancy_stack_xor}
use zxlib.Redundancy.Table.{redundancy_table}

-- The word of a packet that column `i` takes in.
abbrev pub masked : (i w : ℕ) → (ℕ → Package) → ℕ → ℕ
masked i w v j = if redundancy_table j i then (v j).words w else 0

-- The number of data packets among the first `n` that column `i` takes in.
weight : (i n : ℕ) → ℕ
weight i zero = 0
weight i (suc n) = weight i n + (if redundancy_table n i then 1 else 0)

record IsStacked (i w n : ℕ) (v : ℕ → Package) (ps : PackageStack) : Type 0 where
  num : ps.num ≡ weight i n
  upto : ps.num ≤ n
  total : xor_range ps.num (λ k. (ps.pl k).words w) ≡ xor_range n (masked i w v)

push_total :
    (ps : PackageStack) (p : Package) (w : ℕ)
    → xor_range (suc ps.num) (λ k. (update ps.pl ps.num p k).words w)
      ≡ bit_xor (xor_range ps.num (λ k. (ps.pl k).words w)) (p.words w)
unfolding xor_range
push_total ps p w =
    ap₂ bit_xor
      (xor_range_ext ps.num (λ k. (update ps.pl ps.num p k).words w) (λ k. (ps.pl k).words w)
        (λ k lt. ground arith))
      (ground arith)

push_lem :
    (ps : PackageStack) (p : Package)
    → ps.num < 15
    → package_stack_push ps p ≡ record { pl = update ps.pl ps.num p; num = suc ps.num }
unfolding package_stack_push
push_lem ps p lt = rw room refl
  where
    room : (ps.num + 1) % 16 ≡ suc ps.num
    room = omega arith

IsStacked-suc :
    (i w n : ℕ) (v : ℕ → Package) (ps : PackageStack)
    → n < 11
    → IsStacked i w n v ps
    → IsStacked i w (suc n) v (if redundancy_table n i then package_stack_push ps (v n) else ps)
unfolding weight xor_range
IsStacked-suc i w n v ps lt h = elim (Bool-cases (redundancy_table n i)) [
  | inl e ↦
      rw (e, push_lem ps (v n) (omega (arith, h.upto)))
        (record {
          num = ground (arith, e, h.num);
          upto = omega (arith, h.upto);
          total = push_total ps (v n) w ∙ ap₂ bit_xor h.total (ground (arith, e));
        })
  | inr e ↦ rw e (record {
    num = ground (arith, e, h.num);
    upto = omega (arith, h.upto);
    total =
        h.total
        ∙ sym (xor-zero _)
        ∙ ap (λ (t : ℕ). bit_xor (xor_range n (masked i w v)) t) (ground (arith, e));
  })
]

stack_column-IsStacked :
    (i w : ℕ) (v : ℕ → Package) (ps : PackageStack)
    → ps.num ≡ 0
    → IsStacked i w 11 v (stack_column i v ps)
unfolding stack_column weight xor_range
stack_column-IsStacked i w v ps e =
    for_up_inv (λ n. IsStacked i w n v) 11 _ ps (λ n ps lt. IsStacked-suc i w n v ps lt)
      (record { num = e; upto = omega arith; total = rw e refl })

weight_seven : (i : ℕ) → i < 5 → weight i 11 ≡ 7
unfolding weight redundancy_table
weight_seven zero lt = refl
weight_seven (suc zero) lt = refl
weight_seven (suc (suc zero)) lt = refl
weight_seven (suc (suc (suc zero))) lt = refl
weight_seven (suc (suc (suc (suc zero)))) lt = refl
weight_seven (suc (suc (suc (suc (suc i))))) lt = absurd (omega arith)

-- Code packet `i` and the stack after column `i`.
column_word :
    (i w : ℕ) (v : ℕ → Package) (ps : PackageStack) (c : Package)
    → ps.num ≡ 0
    → i < 5
    → w < package_offset_code
    → (package_stack_xor (stack_column i v ps) c).1.words w ≡ xor_range 11 (masked i w v)
column_word i w v ps c e lt h =
    let s = stack_column-IsStacked i w v ps e in
    let seven = weight_seven i lt in
    package_stack_xor-xor_range (stack_column i v ps) c w (omega (arith, s.num))
      (omega (arith, s.num)) h
    ∙ s.total

column_num :
    (i : ℕ) (v : ℕ → Package) (ps : PackageStack) (c : Package)
    → (package_stack_xor (stack_column i v ps) c).0.num ≡ 0
unfolding package_stack_xor
column_num i v ps c = refl

-- The first `n` code packets are made.
pub record IsMade (n : ℕ) (v : ℕ → Package) (r : Redundancy) : Type 0 where
  pub data_packets : r.dp ≡ v
  pub stack : r.ps.num ≡ 0
  pub words :
      (i w : ℕ) → i < n → w < package_offset_code → (r.cp i).words w ≡ xor_range 11 (masked i w v)

update_word :
    (f : ℕ → Package) (n i w : ℕ) (c : Package)
    → (update f n c i).words w ≡ (if i == n then c.words w else (f i).words w)
update_word f n i w c = ground arith

IsMade-suc :
    (n : ℕ) (v : ℕ → Package) (r : Redundancy)
    → n < 5
    → IsMade n v r
    → IsMade (suc n) v (stack_xor_one n r)
unfolding stack_xor_one
IsMade-suc n v r lt h = record {
  data_packets = h.data_packets;
  stack = column_num n r.dp r.ps (r.cp n);
  words = λ i w p q.
      update_word r.cp n i w _ ∙ choose _ _ w i n (made w q) (λ ne. h.words i w (omega arith) q);
}
  where
    made :
        (w : ℕ)
        → w < package_offset_code
        → (package_stack_xor (stack_column n r.dp r.ps) (r.cp n)).1.words w
          ≡ xor_range 11 (masked n w v)
    made w q =
        column_word n w r.dp r.ps (r.cp n) h.stack lt q
        ∙ ap (λ (v : ℕ → Package). xor_range 11 (masked n w v)) h.data_packets

    choose :
        (x y w i n : ℕ)
        → x ≡ xor_range 11 (masked n w v)
        → (i ≢ n → y ≡ xor_range 11 (masked i w v))
        → (if i == n then x else y) ≡ xor_range 11 (masked i w v)
    choose x y w i n a b = elim (ℕ_discrete i n) [
      | yes e ↦ ground (arith, a, e, ap (λ (i : ℕ). xor_range 11 (masked i w v)) e)
      | no ne ↦ ground (arith, b ne)
    ]

-- The sixteen packets in the order of the table.
abbrev pub packets : Redundancy → ℕ → Package
packets r j = if ltb j 11 then r.dp j else r.cp (j - 11)

pub packets-code : (r : Redundancy) (i : ℕ) → packets r (11 + i) ≡ r.cp i
packets-code r i = rw (data_only i, back i) refl
  where
    data_only : (i : ℕ) → ltb (11 + i) 11 ≡ false
    data_only i = ground arith

    back : (i : ℕ) → 11 + i - 11 ≡ i
    back i = omega arith

last_five :
    (i w : ℕ) (v : ℕ → Package)
    → i < 5
    → xor_range 16 (masked i w v) ≡ bit_xor (xor_range 11 (masked i w v)) ((v (11 + i)).words w)
unfolding redundancy_table xor_range
last_five zero w v lt = simp xor-zero
last_five (suc zero) w v lt = simp xor-zero
last_five (suc (suc zero)) w v lt = simp xor-zero
last_five (suc (suc (suc zero))) w v lt = simp xor-zero
last_five (suc (suc (suc (suc zero)))) w v lt = simp xor-zero
last_five (suc (suc (suc (suc (suc i))))) w v lt = absurd (omega arith)

pub redundancy_stack_xor-IsMade :
    (r : Redundancy) → r.ps.num ≡ 0 → IsMade 5 r.dp (redundancy_stack_xor r)
unfolding redundancy_stack_xor
redundancy_stack_xor-IsMade r e =
    for_up_inv (λ n. IsMade n r.dp) 5 stack_xor_one r (λ n t lt. IsMade-suc n r.dp t lt)
      (record { data_packets = refl; stack = e; words = λ i w p q. absurd (omega arith) })

-- The sixteen packets are a codeword: each of the five columns vanishes in every coded word.
abbrev pub IsSixteen : (ℕ → Package) → Type 0
IsSixteen v = (i w : ℕ) → i < 5 → w < package_offset_code → xor_range 16 (masked i w v) ≡ 0

-- `redundancy_stack_xor` completes the eleven data packets to a codeword.
pub redundancy_stack_xor-IsSixteen :
    (r : Redundancy) → r.ps.num ≡ 0 → IsSixteen (packets (redundancy_stack_xor r))
redundancy_stack_xor-IsSixteen r e i w p q =
    let h = redundancy_stack_xor-IsMade r e in
    last_five i w (packets (redundancy_stack_xor r)) p
    ∙ ap₂ bit_xor
        (xor_range_ext 11 (masked i w (packets (redundancy_stack_xor r))) (masked i w r.dp)
          (same h))
        (code i p h)
    ∙ xor_self (xor_range 11 (masked i w r.dp))
  where
    same :
        IsMade 5 r.dp (redundancy_stack_xor r)
        → (j : ℕ) → j < 11
        → masked i w (packets (redundancy_stack_xor r)) j ≡ masked i w r.dp j
    same h j lt = ground (arith, ap (λ (v : ℕ → Package). (v j).words w) h.data_packets)

    code :
        (i : ℕ)
        → i < 5
        → IsMade 5 r.dp (redundancy_stack_xor r)
        → (packets (redundancy_stack_xor r) (11 + i)).words w ≡ xor_range 11 (masked i w r.dp)
    code i lt h =
        ap (λ (p : Package). p.words w) (packets-code (redundancy_stack_xor r) i) ∙ h.words i w lt q
