-- ===== src/Algorithm/Insert.antt =====
-- Insertion sorts.
use zxlib.Prelude.{
  Option, some, ℕ, zero, suc, ◌<◌, ◌≤◌, ◌≡◌, ◌≢◌, subst, arith, fun_ext, ltb, Bool-cases, ltb→lt,
  ltb→ge, inl, inr,
}
use zxlib.Prelude.Family.{update}
use zxlib.Prelude.Loop.{for_up_inv}
use zxlib.Algorithm.Arrays.{
  algorithm_swap, IsSorted, IsPermutation, IsPermutation-self, IsPermutation-trans,
  swap-IsPermutation,
}
use zxlib.Algorithm.Sorts.{put_down, algorithm_insert_sort}

-- Up to `i` all is in order but for the place `j`, which `tmp` may take: what stands behind it is
-- larger.
pub record HasPlace (tmp j i : ℕ) (f : ℕ → ℕ) : Type 0 where
  pub around : (a b : ℕ) → a ≤ b → b ≤ i → a ≢ j → b ≢ j → f a ≤ f b
  pub behind : (b : ℕ) → j < b → b ≤ i → tmp ≤ f b

-- One place down.
HasPlace-down :
    (tmp j i : ℕ) (f : ℕ → ℕ)
    → tmp < f j
    → HasPlace tmp (suc j) i f
    → HasPlace tmp j i (update f (suc j) (f j))
HasPlace-down tmp j i f lt h = record {
  around = λ a b p q r s. ground (arith, h.around a b, h.around a j, h.around j b);
  behind = λ b p q. ground (arith, h.behind b);
}

put_down_lem :
    (tmp j i : ℕ) (f : ℕ → ℕ) → j ≤ i → HasPlace tmp j i f → IsSorted (suc i) (put_down tmp j f)
unfolding put_down
put_down_lem tmp zero i f le h = record {
  ordered = λ a b p q. ground (arith, h.around a b, h.behind b);
}
put_down_lem tmp (suc j) i f le h = elim (Bool-cases (ltb tmp (f j))) [
  | inl lt ↦ rw lt (
      put_down_lem tmp j i (update f (suc j) (f j)) (omega arith)
        (HasPlace-down tmp j i f (ltb→lt _ _ lt) h))
  | inr ge ↦ rw ge (record {
    ordered = λ a b p q. ground (arith, ltb→ge tmp (f j), h.around a b, h.around a j, h.behind b);
  })
]

-- The moves are swaps of neighbours.
put_down-swap :
    (tmp j : ℕ) (f : ℕ → ℕ)
    → update (update f (suc j) (f j)) j tmp ≡ algorithm_swap j (suc j) (update f (suc j) tmp)
unfolding algorithm_swap
put_down-swap tmp j f = fun_ext λ k. ground arith

put_down-IsPermutation :
    (tmp j n : ℕ) (f : ℕ → ℕ) → j < n → IsPermutation n (update f j tmp) (put_down tmp j f)
unfolding put_down
put_down-IsPermutation tmp zero n f lt = IsPermutation-self n (update f 0 tmp)
put_down-IsPermutation tmp (suc j) n f lt = elim (Bool-cases (ltb tmp (f j))) [
  | inl less ↦ rw less (
      IsPermutation-trans (swap-IsPermutation j (suc j) (update f (suc j) tmp) n (omega arith) lt) (
        subst (λ (g : ℕ → ℕ). IsPermutation n g (put_down tmp j (update f (suc j) (f j))))
          (put_down-swap tmp j f)
          (put_down-IsPermutation tmp j n (update f (suc j) (f j)) (omega arith))))
  | inr ge ↦ rw ge (IsPermutation-self n (update f (suc j) tmp))
]

-- One round, on an array of which the first `i` are in order.
pub put_down-IsSorted : (i : ℕ) (f : ℕ → ℕ) → IsSorted i f → IsSorted (suc i) (put_down (f i) i f)
put_down-IsSorted i f s = put_down_lem (f i) i i f (omega arith) (record {
  around = λ a b p q r t. s.ordered a b p (omega arith);
  behind = λ b p q. absurd (omega arith);
})

pub put_down_round : (i n : ℕ) (f : ℕ → ℕ) → i < n → IsPermutation n f (put_down (f i) i f)
put_down_round i n f lt =
    subst (λ (g : ℕ → ℕ). IsPermutation n g (put_down (f i) i f)) (fun_ext λ k. ground arith)
      (put_down-IsPermutation (f i) i n f lt)

-- The first `i` in order, and the same members.
pub record IsSortedUp (n i : ℕ) (f g : ℕ → ℕ) : Type 0 where
  pub sorted : IsSorted i g
  pub permutation : IsPermutation n f g

-- What a sort that may not end returns when it ends and sorts.
abbrev pub Sorts : ℕ → (ℕ → ℕ) → Option (ℕ → ℕ) → Type 0
Sorts n f o = (g : ℕ → ℕ) × (o ≡ some g) × IsSortedUp n n f g

pub IsSortedUp-start : (n : ℕ) (f : ℕ → ℕ) → IsSortedUp n 0 f f
IsSortedUp-start n f = record {
  sorted = record { ordered = λ i j p q. absurd (omega arith) };
  permutation = IsPermutation-self n f;
}

pub put_down-IsSortedUp :
    (n i : ℕ) (f g : ℕ → ℕ)
    → i < n
    → IsSortedUp n i f g
    → IsSortedUp n (suc i) f (put_down (g i) i g)
put_down-IsSortedUp n i f g lt s = record {
  sorted = put_down-IsSorted i g s.sorted;
  permutation = IsPermutation-trans s.permutation (put_down_round i n g lt);
}

pub algorithm_insert_sort-IsSortedUp :
    (n : ℕ) (f : ℕ → ℕ) → IsSortedUp n n f (algorithm_insert_sort f n)
unfolding algorithm_insert_sort
algorithm_insert_sort-IsSortedUp n f =
    for_up_inv (λ i g. IsSortedUp n i f g) n (λ i g. put_down (g i) i g) f
      (λ i g lt s. put_down-IsSortedUp n i f g lt s) (IsSortedUp-start n f)
