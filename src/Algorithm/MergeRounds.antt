-- ===== src/Algorithm/MergeRounds.antt =====
-- The merging sort.
use zxlib.Prelude.{
  ℕ, zero, suc, ◌+◌, ◌-◌, ◌/◌, ◌<◌, ◌≤◌, ◌≡◌, refl, ◌∙◌, arith, false, some, ◌==◌, ℕ_discrete,
}
use zxlib.Algorithm.MergeSort.{merging_sort, algorithm_merging_sort}
use zxlib.Algorithm.Arrays.{IsPermutation-self, IsPermutation-trans}
use zxlib.Algorithm.Insert.{Sorts}
use zxlib.Algorithm.MergeBack.{IsRange, merge-IsRange}

-- The two halves and the merging, one after the other.
three_rounds :
    {n start mid last : ℕ} {f g h k : ℕ → ℕ}
    → start ≤ mid
    → mid ≤ last
    → IsRange n start (mid + 1) f g
    → IsRange n (mid + 1) (last + 1) g h
    → IsRange n start (last + 1) h k
    → IsRange n start (last + 1) f k
three_rounds {f} {g} {h} {k} p q s s' s'' = record {
  ordered = s''.ordered;
  outside = λ x o.
      s''.outside x o ∙ s'.outside x (ground (arith, o, p)) ∙ s.outside x (ground (arith, o, q));
  permutation =
      IsPermutation-trans s.permutation (IsPermutation-trans s'.permutation s''.permutation);
}

-- The recursion.
merging_sort-IsRange :
    (fuel start last n : ℕ) (f temp : ℕ → ℕ)
    → start ≤ last
    → last - start < fuel
    → last < n
    → (g t : ℕ → ℕ) × (merging_sort fuel start last (f, temp) ≡ some (g, t))
      × IsRange n start (last + 1) f g
unfolding merging_sort
merging_sort-IsRange zero start last n f temp p q r = absurd (omega (arith, q))
merging_sort-IsRange (suc fuel) start last n f temp p q r = elim (ℕ_discrete start last) [
  | yes e ↦ (
    f,
    temp,
    ground (arith, e),
    record {
      ordered = λ a b x y z. let same : a ≡ b = omega (arith, x, y, z, e) in rw same (omega arith);
      outside = λ x o. refl;
      permutation = IsPermutation-self n f;
    },
  )
  | no ne ↦
      let mid = (start + last) / 2 in
      let (g, t, e, s) =
        merging_sort-IsRange fuel start mid n f temp (omega (arith, p)) (omega (arith, p, q, ne))
          (omega (arith, p, r)) in
      let (h, t', e', s') =
        merging_sort-IsRange fuel (mid + 1) last n g t (omega (arith, p, ne))
          (omega (arith, p, q, ne)) r in
      let (k, t'', e'', s'') =
        merge-IsRange {start = start} {mid = mid} {stop = last + 1} {n = n} {f = h}
          (omega (arith, p)) (omega (arith, p, ne)) (omega (arith, r))
          (λ a b x y z. ground (arith, s'.outside a, s'.outside b, s.ordered a b x y))
          (λ a b x y z. s'.ordered a b x y z) t' in
      (
        k,
        t'',
        ground (arith, ne, e, e', e''),
        three_rounds {f = f} {g = g} {h = h} {k = k} (omega (arith, p)) (omega (arith, p)) s s' s'',
      )
]

pub algorithm_merging_sort-IsSortedUp :
    (n : ℕ) (temp f : ℕ → ℕ) → Sorts (n + 1) f (algorithm_merging_sort temp f (n + 1))
unfolding algorithm_merging_sort
algorithm_merging_sort-IsSortedUp n temp f =
    let (g, t, e, s) =
      merging_sort-IsRange (n + 1) 0 (n + 1 - 1) (n + 1) f temp (omega arith) (omega arith)
        (omega arith) in
    (
      g,
      rw (not_empty, e) refl,
      record {
        sorted = record { ordered = λ a b p q. s.ordered a b (omega arith) p (omega (arith, q)) };
        permutation = s.permutation;
      },
    )
  where
    not_empty : (n + 1 == 0) ≡ false
    not_empty = ground arith
