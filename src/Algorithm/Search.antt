-- ===== src/Algorithm/Search.antt =====
-- The binary search.
use zxlib.Prelude.{
  ℕ, zero, suc, ◌+◌, ◌-◌, ◌/◌, ◌<◌, ◌≤◌, ◌≡◌, subst, sym, ap, ◌∙◌, arith, Option, none, some,
  ℕ_discrete, dec_lt,
}
use zxlib.Algorithm.Sorts.{bisearch, algorithm_bisearch}

abbrev found_right : ℕ → Option ℕ → Option ℕ
found_right mid o = elim o [ none ↦ none | some i ↦ some (mid + 1 + i) ]

-- The three ways of a search that has something to search.
module _ (fuel : ℕ) (f : ℕ → ℕ) (offset len num : ℕ) (p : 0 < len) where
  goes_right :
      f (offset + len / 2) < num
      → bisearch (suc fuel) f offset len num
        ≡ found_right (len / 2) (bisearch fuel f (offset + (len / 2 + 1)) (len - len / 2 - 1) num)
  unfolding bisearch
  goes_right lt = ground arith

  goes_left :
      num < f (offset + len / 2)
      → bisearch (suc fuel) f offset len num ≡ bisearch fuel f offset (len / 2 - 1) num
  unfolding bisearch
  goes_left lt = ground arith

  stays_here : f (offset + len / 2) ≡ num → bisearch (suc fuel) f offset len num ≡ some (len / 2)
  unfolding bisearch
  stays_here e = ground arith

-- All members are smaller: the place behind them.
all_smaller :
    (fuel : ℕ) (f : ℕ → ℕ) (offset len num : ℕ)
    → len < fuel
    → ((k : ℕ) → k < len → f (offset + k) < num)
    → bisearch fuel f offset len num ≡ some len
unfolding bisearch
all_smaller zero f offset len num p h = absurd (omega arith)
all_smaller (suc fuel) f offset len num p h = elim (ℕ_discrete len 0) [
  | yes e ↦ ground (arith, e)
  | no ne ↦
      goes_right fuel f offset len num (omega arith) (h (len / 2) (omega arith))
      ∙ ap (λ (o : Option ℕ). found_right (len / 2) o)
          (all_smaller fuel f (offset + (len / 2 + 1)) (len - len / 2 - 1) num (omega arith)
            (λ k q. subst (λ (i : ℕ). f i < num) (omega arith) (h (len / 2 + 1 + k) (omega arith))))
      ∙ ap (λ (i : ℕ). some i) (omega arith)
]

bisearch_found :
    (fuel : ℕ) (f : ℕ → ℕ) (offset len k : ℕ)
    → len < fuel
    → k < len
    → ((i j : ℕ) → i < j → j < len → f (offset + i) < f (offset + j))
    → bisearch fuel f offset len (f (offset + k)) ≡ some k
bisearch_found zero f offset len k p q h = absurd (omega arith)
bisearch_found (suc fuel) f offset len k p q h = elim (dec_lt (len / 2) k) [
  | yes right ↦
      goes_right fuel f offset len (f (offset + k)) (omega arith) (h (len / 2) k right q)
      ∙ ap (λ (o : Option ℕ). found_right (len / 2) o)
          (subst
            (λ (i : ℕ).
              bisearch fuel f (offset + (len / 2 + 1)) (len - len / 2 - 1) (f i)
              ≡ some (k - (len / 2 + 1)))
            (omega arith)
            (bisearch_found fuel f (offset + (len / 2 + 1)) (len - len / 2 - 1) (k - (len / 2 + 1))
              (omega arith) (omega arith) (λ i j r s. shifted h i j r (omega arith))))
      ∙ ap (λ (i : ℕ). some i) (omega arith)
  | no not_right ↦ elim (ℕ_discrete k (len / 2)) [
    | yes e ↦
        stays_here fuel f offset len (f (offset + k)) (omega arith)
          (ap (λ (i : ℕ). f (offset + i)) (sym e))
        ∙ ap (λ (i : ℕ). some i) (sym e)
    | no ne ↦
        goes_left fuel f offset len (f (offset + k)) (omega arith)
          (h k (len / 2) (omega arith) (omega arith))
        ∙ elim (ℕ_discrete (suc k) (len / 2)) [
          | yes last ↦
              all_smaller fuel f offset (len / 2 - 1) (f (offset + k)) (omega arith)
                (λ i r. h i k (omega arith) (omega arith))
              ∙ ap (λ (i : ℕ). some i) (omega arith)
          | no inner ↦
              bisearch_found fuel f offset (len / 2 - 1) k (omega arith) (omega arith)
                (λ i j r s. h i j r (omega arith))
        ]
  ]
]
  where
    shifted :
        ((i j : ℕ) → i < j → j < len → f (offset + i) < f (offset + j))
        → (i j : ℕ) → i < j
        → len / 2 + 1 + j < len
        → f (offset + (len / 2 + 1) + i) < f (offset + (len / 2 + 1) + j)
    shifted h i j r s =
        let first : offset + (len / 2 + 1 + i) ≡ offset + (len / 2 + 1) + i = omega arith in
        let second : offset + (len / 2 + 1 + j) ≡ offset + (len / 2 + 1) + j = omega arith in
        subst (λ (a : ℕ). f a < f (offset + (len / 2 + 1) + j)) first
          (subst (λ (b : ℕ). f (offset + (len / 2 + 1 + i)) < f b) second
            (h (len / 2 + 1 + i) (len / 2 + 1 + j) (omega arith) s))

-- In an array in strict order `algorithm_bisearch` ends and finds every member at its index. A number
-- that is missing, between the members at `len / 2 - 1` and `len / 2`, gets the place of the first of
-- these, which is one too low: the left part of the search is one member short.
pub algorithm_bisearch_lem :
    (f : ℕ → ℕ) (n : ℕ)
    → ((i j : ℕ) → i < j → j < n → f i < f j)
    → ((k : ℕ) → k < n → algorithm_bisearch f n (f k) ≡ some k)
      × ((num : ℕ)
          → 2 ≤ n
          → f (n / 2 - 1) < num
          → num < f (n / 2)
          → algorithm_bisearch f n num ≡ some (n / 2 - 1))
unfolding algorithm_bisearch
algorithm_bisearch_lem f n h = (
  λ k lt.
      subst (λ (i : ℕ). bisearch (n + 1) f 0 n (f i) ≡ some k) (omega arith)
        (bisearch_found (n + 1) f 0 n k (omega arith) lt (λ i j p q. shifted i j (h i j p q))),
  λ num two lo hi.
      subst (λ (fuel : ℕ). bisearch fuel f 0 n num ≡ some (n / 2 - 1)) (omega arith)
        (goes_left n f 0 n num (omega arith) (subst (λ (i : ℕ). num < f i) (omega arith) hi)
          ∙ all_smaller n f 0 (n / 2 - 1) num (omega arith)
              (λ k p. subst (λ (i : ℕ). f i < num) (omega arith) (below num k lo (omega arith)))),
)
  where
    plus : (i : ℕ) → i ≡ 0 + i
    plus i = omega arith

    shifted : (i j : ℕ) → f i < f j → f (0 + i) < f (0 + j)
    shifted i j lt =
        subst (λ (a : ℕ). f a < f (0 + j)) (plus i) (subst (λ (b : ℕ). f i < f b) (plus j) lt)

    below : (num k : ℕ) → f (n / 2 - 1) < num → k < n / 2 - 1 → f k < num
    below num k lo p = omega (arith, h k (n / 2 - 1) p (omega arith), lo)
