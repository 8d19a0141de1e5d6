-- ===== src/Redundancy/Round.antt =====
-- One round of `redundancy_imple`: what it finds is missing, and the packet it makes is the one sent.
use zxlib.Prelude.{
  ℕ, suc, ◌+◌, ◌<◌, ◌≤◌, ◌≡◌, ◌≢◌, inl, inr, refl, subst, ap, sym, ◌∙◌, arith, Bool, true, false,
  not, ◌&&◌, ◌||◌, bit_xor, ltb, ◌==◌, if◌then◌else◌, Bool-cases, ℕ_discrete, Option, none, some,
}
use zxlib.Prelude.Loop.{for_up_inv}
use zxlib.Prelude.First.{first, first_sound}
use zxlib.Package.{Package, package_offset_code}
use zxlib.Package.Words.{package_malloc, package_copy}
use zxlib.Package.Xor.{package_xor2}
use zxlib.Redundancy.{Redundancy}
use zxlib.Redundancy.Table.{redundancy_table}
use zxlib.Redundancy.Parity.{IsSixteen}
use zxlib.Redundancy.Syndrome.{IsSyndrome}
use zxlib.Redundancy.Lost.{one_missing, one_different}
use zxlib.Redundancy.Decode.{
  redundancy_lost, count_missing, differ_cell, differ_columns, is_pair, imple_one,
}

-- A missing packet tells the columns `i` and `j` apart.
abbrev Tells : (mark : ℕ → Bool) (i j k : ℕ) → Type 0
Tells mark i j k = (mark k ≡ false) × (redundancy_table k i ≢ redundancy_table k j)

abbrev SameAt : (mark : ℕ → Bool) (i j k : ℕ) → Type 0
SameAt mark i j k = mark k ≡ false → redundancy_table k i ≡ redundancy_table k j

-- What the comparison knows of the first `n` packets.
record Compares (mark : ℕ → Bool) (i j n : ℕ) (s : ℕ × ℕ) : Type 0 where
  zero_found : s.0 ≡ 0 → (k : ℕ) → k < n → SameAt mark i j k
  one_found :
      s.0 ≡ 1 → (s.1 < n) × (Tells mark i j s.1) × ((k : ℕ) → k < n → k ≢ s.1 → SameAt mark i j k)

module _ (mark : ℕ → Bool) (i j n : ℕ) where
  one_more : (P : ℕ → Type 0) → ((k : ℕ) → k < n → P k) → P n → (k : ℕ) → k < suc n → P k
  one_more P h p k lt = elim (ℕ_discrete k n) [ yes e ↦ rw e p | no ne ↦ h k (omega arith) ]

  Compares-same :
      (s : ℕ × ℕ)
      → Compares mark i j n s
      → (s.0 ≤ 1 → SameAt mark i j n)
      → Compares mark i j (suc n) s
  Compares-same s h same = record {
    zero_found = λ e. one_more (SameAt mark i j) (h.zero_found e) (same (omega arith));
    one_found = λ e.
        let (lt, t, rest) = h.one_found e in
        (
          omega arith,
          t,
          one_more (λ k. k ≢ s.1 → SameAt mark i j k) rest (λ _. same (omega arith)),
        );
  }

  Compares-Tells :
      (check lost : ℕ)
      → Compares mark i j n (check, lost)
      → Tells mark i j n
      → Compares mark i j (suc n) (check + 1, n)
  Compares-Tells check lost h t = record {
    zero_found = λ e. absurd (omega arith);
    one_found = λ e. (
      omega arith,
      t,
      one_more (λ k. k ≢ n → SameAt mark i j k) (λ k lt _. h.zero_found (omega arith) k lt)
          (λ ne. absurd (ne refl)),
    );
  }

  differ_cases :
      (check lost : ℕ) (full m a b : Bool)
      → Compares mark i j n (check, lost)
      → ltb 1 check ≡ full
      → mark n ≡ m
      → redundancy_table n i ≡ a
      → redundancy_table n j ≡ b
      → Compares mark i j (suc n) (
          if full || m
          then (check, lost)
          else if a && b || not a && not b
          then (check, lost)
          else (check + 1, n))
  differ_cases check lost true m a b h ef em ea eb =
      Compares-same (check, lost) h (λ le. absurd (ground (arith, ef)))
  differ_cases check lost false true a b h ef em ea eb =
      Compares-same (check, lost) h (λ _ f. absurd (ground (arith, em, f)))
  differ_cases check lost false false true true h ef em ea eb =
      Compares-same (check, lost) h (λ _ _. ea ∙ sym eb)
  differ_cases check lost false false false false h ef em ea eb =
      Compares-same (check, lost) h (λ _ _. ea ∙ sym eb)
  differ_cases check lost false false true false h ef em ea eb =
      Compares-Tells check lost h (em, λ f. absurd (ground (arith, ea, eb, f)))
  differ_cases check lost false false false true h ef em ea eb =
      Compares-Tells check lost h (em, λ f. absurd (ground (arith, ea, eb, f)))

differ_columns-Compares :
    (mark : ℕ → Bool) (i j n : ℕ) → Compares mark i j n (differ_columns mark i j n)
unfolding differ_columns differ_cell
differ_columns-Compares mark i j n =
    for_up_inv (Compares mark i j) n (differ_cell mark i j) (0, 0)
      (λ n (check, lost) _ h.
        differ_cases mark i j n check lost (ltb 1 check) (mark n) (redundancy_table n i)
          (redundancy_table n j) h refl refl refl refl)
      (record {
        zero_found = λ e k lt. absurd (omega arith);
        one_found = λ e. absurd (ground arith);
      })

-- Packet `p` at place `k` was missing, and is the packet of `v`.
pub record IsFound (v : ℕ → Package) (mark : ℕ → Bool) (p : Package) (k : ℕ) : Type 0 where
  pub place : k < 16
  pub lost : mark k ≡ false
  pub words : (w : ℕ) → w < package_offset_code → p.words w ≡ (v k).words w

copy_word :
    (p : Package) (w : ℕ)
    → w < package_offset_code
    → (package_copy package_malloc p).words w ≡ p.words w
unfolding package_copy
copy_word p w lt = ground arith

sum_word :
    (p q : Package) (w : ℕ)
    → w < package_offset_code
    → (package_xor2 (package_copy package_malloc p) (package_copy package_malloc p) q).words w
      ≡ bit_xor (p.words w) (q.words w)
unfolding package_copy package_xor2
sum_word p q w lt = ground arith

module _ (v : ℕ → Package) (r : Redundancy) (num : ℕ → ℕ) (i : ℕ) (code : IsSixteen v)
    (h : IsSyndrome v r.mark r.cp) (lt : i < 5) where
  lost-IsFound :
      (k : ℕ)
      → count_missing r i ≡ 1
      → redundancy_lost r i ≡ some k
      → IsFound v r.mark (package_copy package_malloc (r.cp i)) k
  unfolding redundancy_lost count_missing
  lost-IsFound k one e =
      let (p, t) = first_sound 16 k (λ i'. not (r.mark i') && redundancy_table i' i) e in
      let m : r.mark k ≡ false = ground (arith, t) in
      record {
        place = p;
        lost = m;
        words = λ w q.
            copy_word (r.cp i) w q
            ∙ one_missing v r.mark r.cp code h i k w lt p q one m (ground (arith, t));
      }

  pair-IsFound :
      (j : ℕ)
      → first 5 (is_pair r num i) ≡ some j
      → IsFound v r.mark
          (package_xor2
            (package_copy package_malloc (r.cp i))
            (package_copy package_malloc (r.cp i))
            (r.cp j))
          (differ_columns r.mark i j 16).1
  pair-IsFound j e =
      let (q, t) = first_sound 5 j (is_pair r num i) e in
      let (p, (m, ne), rest) =
        (differ_columns-Compares r.mark i j 16).one_found (ground (arith, t)) in
      record {
        place = p;
        lost = m;
        words = λ w lw.
            sum_word (r.cp i) (r.cp j) w lw
            ∙ one_different v r.mark r.cp code h i j (differ_columns r.mark i j 16).1 w lt q p lw m
                ne rest;
      }

  same-IsFound :
      (x : Package × ℕ) (p : Package) (k : ℕ)
      → some x ≡ some (p, k)
      → IsFound v r.mark x.0 x.1
      → IsFound v r.mark p k
  same-IsFound x p k e f =
      subst (λ (y : Package × ℕ). IsFound v r.mark y.0 y.1)
        (ap (λ (o : Option (Package × ℕ)). elim o [ none ↦ x | some y ↦ y ]) e) f

  lost_round :
      (o : Option ℕ) (p : Package) (k : ℕ)
      → redundancy_lost r i ≡ o
      → count_missing r i ≡ 1
      → ◌≡◌ {A = Option (Package × ℕ)}
          (elim o [ none ↦ none | some lost ↦ some (package_copy package_malloc (r.cp i), lost) ])
          (some (p, k))
      → IsFound v r.mark p k
  lost_round none p k e one f = absurd (ground (arith, f))
  lost_round (some l) p k e one f = same-IsFound _ p k f (lost-IsFound l one e)

  pair_round :
      (o : Option ℕ) (p : Package) (k : ℕ)
      → first 5 (is_pair r num i) ≡ o
      → ◌≡◌ {A = Option (Package × ℕ)}
          (elim o [
            | none ↦ none
            | some j ↦ some (
              package_xor2
                  (package_copy package_malloc (r.cp i))
                  (package_copy package_malloc (r.cp i))
                  (r.cp j),
              (differ_columns r.mark i j 16).1,
            )
          ])
          (some (p, k))
      → IsFound v r.mark p k
  pair_round none p k e f = absurd (ground (arith, f))
  pair_round (some j) p k e f = same-IsFound _ p k f (pair-IsFound j e)

  pub imple_one-IsFound :
      (p : Package) (k : ℕ)
      → num i ≡ count_missing r i
      → imple_one r num i ≡ some (p, k)
      → IsFound v r.mark p k
  unfolding imple_one
  imple_one-IsFound p k n e = elim (Bool-cases (num i == 1)) [
    | inl b ↦ lost_round (redundancy_lost r i) p k refl (ground (arith, b, n)) (rw b at e)
    | inr b ↦ pair_round (first 5 (is_pair r num i)) p k refl (rw b at e)
  ]
