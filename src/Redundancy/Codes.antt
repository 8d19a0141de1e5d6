-- ===== src/Redundancy/Codes.antt =====
-- The code packets that `redundancy_encode` puts in the list.
use zxlib.Prelude.{
  ℕ, suc, ◌+◌, ◌%◌, ◌<◌, ◌≡◌, refl, subst, ap, ◌∙◌, arith, true, leb, lt→ltb, ℕ_discrete, Any,
  Any-append, Any-snoc,
}
use zxlib.Prelude.Family.{update}
use zxlib.Prelude.Loop.{for_up_inv}
use zxlib.Package.{Package, package_offset_code}
use zxlib.Package.Words.{package_malloc, package_copy, package_set_code}
use zxlib.Package.Stack.{PackageStack}
use zxlib.Redundancy.{
  stack_xor_one, Redundancy, redundancy_put, redundancy_reset, set_i, redundancy_stack_xor,
}
use zxlib.Redundancy.Parity.{packets, packets-code, IsSixteen, redundancy_stack_xor-IsSixteen}
use zxlib.Redundancy.Imple.{get_i}
use zxlib.Redundancy.Encode.{
  put_code, put_codes, placed_packet, redundancy_encode_at, redundancy_encode,
}

-- The packet `q` is code packet `m`: the words of `c`, and its place in its code.
pub record IsCodePacket (n m : ℕ) (c q : Package) : Type 0 where
  pub words : (w : ℕ) → w < package_offset_code → q.words w ≡ c.words w
  pub place : get_i q.code n ≡ 11 + m

-- The first `k` code packets of `r` are in the list.
record ArePut (r : Redundancy) (k : ℕ) (t : Redundancy) : Type 0 where
  cn : t.cn ≡ k
  cp : t.cp ≡ r.cp
  n : t.n ≡ r.n
  dn : t.dn ≡ r.dn
  put : (m : ℕ) → m < k → Any (IsCodePacket r.n m (r.cp m)) t.list

-- The packet that a round puts in the list.
abbrev code_packet : (id : ℕ) → Redundancy → Package
code_packet id r =
    let p = package_copy package_malloc (r.cp r.cn) in
    let c1 = set_i (record p.code { id = id }) r.n (11 + r.cn) in
    record (package_set_code (record p { code = set_i c1 ((r.n + 1) % 2) r.i })) { exist = true }

code_packet-IsCodePacket :
    (id : ℕ) (r : Redundancy) → r.n < 2 → IsCodePacket r.n r.cn (r.cp r.cn) (code_packet id r)
unfolding package_set_code package_copy
code_packet-IsCodePacket id r lt = record { words = λ w q. ground arith; place = at_n r.n lt }
  where
    at_n :
        (n : ℕ)
        → n < 2
        → get_i
            (set_i
              (set_i
                (record (package_copy package_malloc (r.cp r.cn)).code { id = id })
                n
                (11 + r.cn))
              ((n + 1) % 2)
              r.i)
            n
          ≡ 11 + r.cn
    at_n n lt = ground arith

ArePut-suc :
    (id k : ℕ) (r t : Redundancy) → r.n < 2 → ArePut r k t → ArePut r (suc k) (put_code id t)
unfolding put_code redundancy_put
ArePut-suc id k r t lt h = record {
  cn = omega (arith, h.cn);
  cp = h.cp;
  n = h.n;
  dn = h.dn;
  put = λ m q. elim (ℕ_discrete m k) [
    | yes e ↦
        Any-snoc (IsCodePacket r.n m (r.cp m)) t.list (code_packet id t)
          (rw (e, ← h.cn, ← h.cp, ← h.n) (code_packet-IsCodePacket id t (omega (arith, h.n))))
    | no ne ↦ Any-append (IsCodePacket r.n m (r.cp m)) t.list _ (h.put m (omega arith))
  ];
}

put_codes-ArePut : (id : ℕ) (r : Redundancy) → r.cn ≡ 0 → r.n < 2 → ArePut r 5 (put_codes id r)
unfolding put_codes
put_codes-ArePut id r e lt =
    for_up_inv (λ k t. ArePut r k t) 5 _ r (λ k t _ h. ArePut-suc id k r t lt h)
      (record { cn = e; cp = refl; n = refl; dn = refl; put = λ m q. absurd (omega arith) })

with_made : (ℕ → Package) → PackageStack → Redundancy → Redundancy
with_made cp ps t = record t { cp = cp; ps = ps }

redundancy_stack_xor_frame :
    (r : Redundancy)
    → redundancy_stack_xor r
      ≡ record r { cp = (redundancy_stack_xor r).cp; ps = (redundancy_stack_xor r).ps }
unfolding redundancy_stack_xor stack_xor_one with_made
redundancy_stack_xor_frame r =
    for_up_inv (λ _ t. t ≡ record r { cp = t.cp; ps = t.ps }) 5 stack_xor_one r
      (λ i t _ h. ap (with_made (stack_xor_one i t).cp (stack_xor_one i t).ps) h) refl

-- The eleven data packets of a unit, with the last one.
abbrev pub all_data : Redundancy → Package → ℕ → Package
all_data r p = update r.dp r.dn (placed_packet r (record p { exist = true }) r.id)

module _ (r : Redundancy) (p : Package) where
  abbrev start : Redundancy
  start = record r {
    list = (redundancy_put r (placed_packet r (record p { exist = true }) r.id)).list;
    dp = all_data r p;
    dn = r.dn + 1;
  }

  abbrev completed : Redundancy
  completed = redundancy_stack_xor start

  encode_full : r.dn ≡ 10 → redundancy_encode r p ≡ redundancy_reset (put_codes r.id completed)
  unfolding redundancy_encode redundancy_encode_at redundancy_put
  encode_full ten = rw (full ten) refl
    where
      full : r.dn ≡ 10 → leb 11 (r.dn + 1) ≡ true
      full ten = ground arith

  completed_dp : (j : ℕ) → completed.dp j ≡ all_data r p j
  completed_dp j = ap (λ (t : Redundancy). t.dp j) (redundancy_stack_xor_frame start)

  codes-ArePut : r.cn ≡ 0 → r.n < 2 → ArePut completed 5 (put_codes r.id completed)
  codes-ArePut none two =
      put_codes-ArePut r.id completed
        (ap (λ (t : Redundancy). t.cn) (redundancy_stack_xor_frame start) ∙ none)
        (omega (arith, two, ap (λ (t : Redundancy). t.n) (redundancy_stack_xor_frame start)))

  code_put :
      (m : ℕ)
      → m < 5
      → r.cn ≡ 0
      → r.n < 2
      → Any (IsCodePacket r.n m (packets completed (11 + m))) (put_codes r.id completed).list
  code_put m lt none two = rw (packets-code completed m) (
      subst (λ (n : ℕ). Any (IsCodePacket n m (completed.cp m)) (put_codes r.id completed).list)
        (ap (λ (t : Redundancy). t.n) (redundancy_stack_xor_frame start))
        ((codes-ArePut none two).put m lt))

-- With the eleventh data packet of a unit, `redundancy_encode` puts the five code packets in the list
-- that complete the eleven to a codeword, each with its place in its code, and starts a new unit.
pub redundancy_encode-IsSixteen :
    (r : Redundancy) (p : Package)
    → r.dn ≡ 10
    → r.cn ≡ 0
    → r.n < 2
    → r.ps.num ≡ 0
    → (v : ℕ → Package) × IsSixteen v
      × ((j : ℕ) → j < 11 → v j ≡ all_data r p j)
      × ((m : ℕ) → m < 5 → Any (IsCodePacket r.n m (v (11 + m))) (redundancy_encode r p).list)
      × ((redundancy_encode r p).dn ≡ 0)
unfolding redundancy_reset
redundancy_encode-IsSixteen r p ten none two empty = rw (encode_full r p ten) (
  packets (completed r p),
  redundancy_stack_xor-IsSixteen (start r p) empty,
  λ j lt. data_at j lt ∙ completed_dp r p j,
  λ m lt. code_put r p m lt none two,
  refl,
)
  where
    data_at : (j : ℕ) → j < 11 → packets (completed r p) j ≡ (completed r p).dp j
    data_at j lt = rw (lt→ltb j 11 lt) refl
