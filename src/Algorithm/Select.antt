-- ===== src/Algorithm/Select.antt =====
-- The selection sort.
use zxlib.Prelude.{
  ℕ, suc, ◌+◌, ◌-◌, ◌<◌, ◌≤◌, ◌≡◌, ◌⊎◌, arith, ltb, if◌then◌else◌, dec_lt, lt→ltb, ge→ltb, inl, inr,
}
use zxlib.Prelude.Loop.{for_up_inv}
use zxlib.Algorithm.Arrays.{
  algorithm_swap, IsPermutation, IsPermutation-self, IsPermutation-trans, swap-IsPermutation,
}
use zxlib.Algorithm.Sorts.{find_min, algorithm_select_sort}
use zxlib.Algorithm.Insert.{IsSortedUp}

-- The smallest of so many from `i` on, so far.
record IsMin (f : ℕ → ℕ) (i d len m : ℕ) : Type 0 where
  low : i ≤ m
  high : m < len
  least : (k : ℕ) → i ≤ k → k < i + d → f m ≤ f k

find_min-IsMin : (f : ℕ → ℕ) (i len : ℕ) → i < len → IsMin f i (len - i) len (find_min f i len)
unfolding find_min
find_min-IsMin f i len lt =
    for_up_inv (λ d m. IsMin f i d len m) (len - i)
      (λ d min. if ltb (f (i + d)) (f min) then i + d else min) i
      (λ d m p h. one_more d m p h (dec_lt (f (i + d)) (f m)))
      (record { low = omega arith; high = lt; least = λ k p q. absurd (omega arith) })
  where
    latest : (d k : ℕ) → i ≤ k → k < i + suc d → ((k < i + d) ⊎ (k ≡ i + d))
    latest d k p q = elim (dec_lt k (i + d)) [ yes r ↦ inl r | no r ↦ inr (omega arith) ]

    one_more :
        (d m : ℕ)
        → d < len - i
        → IsMin f i d len m
        → Dec (f (i + d) < f m)
        → IsMin f i (suc d) len (if ltb (f (i + d)) (f m) then i + d else m)
    one_more d m p h (yes less) = rw (lt→ltb _ _ less) (record {
      low = omega arith;
      high = omega arith;
      least = λ k a b. elim (latest d k a b) [
        | inl r ↦ omega (arith, h.least k a r)
        | inr e ↦ rw e (omega arith)
      ];
    })
    one_more d m p h (no ge) = rw (ge→ltb (f (i + d)) (f m) (omega arith)) (record {
      low = h.low;
      high = h.high;
      least = λ k a b. elim (latest d k a b) [ inl r ↦ h.least k a r | inr e ↦ rw e (omega arith) ];
    })

-- The first `i` are where they belong among all `n`.
record IsSelected (n i : ℕ) (f g : ℕ → ℕ) : Type 0 where
  placed : (a b : ℕ) → a < i → a ≤ b → b < n → g a ≤ g b
  permutation : IsPermutation n f g

placed_swap :
    (n i m : ℕ) (g : ℕ → ℕ)
    → IsMin g i (n - i) n m
    → i < n
    → ((a b : ℕ) → a < i → a ≤ b → b < n → g a ≤ g b)
    → (a b : ℕ) → a < suc i
    → a ≤ b
    → b < n
    → algorithm_swap i m g a ≤ algorithm_swap i m g b
unfolding algorithm_swap
placed_swap n i m g h lt placed a b p q r =
    ground (arith, placed a b, placed a m, placed a i, h.least b, h.least i)

select_round :
    (n i : ℕ) (f g : ℕ → ℕ)
    → i < n
    → IsSelected n i f g
    → IsSelected n (suc i) f (algorithm_swap i (find_min g i n) g)
select_round n i f g lt s =
    let m = find_min-IsMin g i n lt in
    record {
      placed = placed_swap n i (find_min g i n) g m lt s.placed;
      permutation =
          IsPermutation-trans s.permutation (swap-IsPermutation i (find_min g i n) g n lt m.high);
    }

pub algorithm_select_sort-IsSortedUp :
    (n : ℕ) (f : ℕ → ℕ) → IsSortedUp n n f (algorithm_select_sort f n)
unfolding algorithm_select_sort
algorithm_select_sort-IsSortedUp n f =
    let s =
      for_up_inv (λ i g. IsSelected n i f g) n (λ i g. algorithm_swap i (find_min g i n) g) f
        (λ i g lt s. select_round n i f g lt s)
        (record { placed = λ a b p. absurd (omega arith); permutation = IsPermutation-self n f }) in
    record {
      sorted = record { ordered = λ a b p q. s.placed a b (omega arith) p q };
      permutation = s.permutation;
    }
