-- ===== src/Algorithm/Sorted.antt =====
-- All the sorts sort, and `algorithm_check` sees it.
use zxlib.Prelude.{
  Option, some, ℕ, zero, suc, ◌+◌, ◌<◌, ◌≤◌, ◌≡◌, refl, arith, Bool, true, false, some, ltb,
  if◌then◌else◌,
}
use zxlib.Prelude.Loop.{for_up}
use zxlib.Algorithm.Arrays.{IsSorted, IsPermutation}
use zxlib.Algorithm.Sorts.{
  algorithm_check, algorithm_insert_sort, algorithm_bisearch_insert_sort, algorithm_select_sort,
}
use zxlib.Algorithm.HeapSort.{algorithm_heap_sort}
use zxlib.Algorithm.HeapRounds.{algorithm_heap_sort-IsSortedUp}
use zxlib.Algorithm.MergeSort.{algorithm_merging_sort}
use zxlib.Algorithm.MergeRounds.{algorithm_merging_sort-IsSortedUp}
use zxlib.Algorithm.ShellSort.{algorithm_shell_sort}
use zxlib.Algorithm.Shell.{algorithm_shell_sort-IsSortedUp}
use zxlib.Algorithm.Insert.{IsSortedUp, Sorts, algorithm_insert_sort-IsSortedUp}
use zxlib.Algorithm.Binary.{algorithm_bisearch_insert_sort-IsSortedUp}
use zxlib.Algorithm.Select.{algorithm_select_sort-IsSortedUp}

-- The check of one pair.
abbrev pair_check : (ℕ → ℕ) → ℕ → ℕ → Bool → Bool
pair_check f n i check =
    if ltb (i + 1) n then (if ltb (f (i + 1)) (f i) then false else check) else check

checked :
    (f : ℕ → ℕ) (n k : ℕ)
    → ((i : ℕ) → i < k → i + 1 < n → f i ≤ f (i + 1))
    → for_up k (pair_check f n) true ≡ true
unfolding for_up
checked f n zero h = refl
checked f n (suc k) h = ground (arith, checked f n k (λ i p q. h i (omega arith) q), h k)

pub algorithm_check-true : (n : ℕ) (f : ℕ → ℕ) → IsSorted n f → algorithm_check f n ≡ true
unfolding algorithm_check
algorithm_check-true n f s = checked f n n (λ i p q. s.ordered i (i + 1) (omega arith) q)

abbrev pub IsSortOf : ℕ → (ℕ → ℕ) → (ℕ → ℕ) → Type 0
IsSortOf n f g = IsSorted n g × IsPermutation n f g × (algorithm_check g n ≡ true)

-- The same for a sort with loops on fuel, which is enough.
abbrev pub IsSortOfSome : ℕ → (ℕ → ℕ) → Option (ℕ → ℕ) → Type 0
IsSortOfSome n f o = (g : ℕ → ℕ) × (o ≡ some g) × IsSortOf n f g

sort_of : {n : ℕ} {f g : ℕ → ℕ} → IsSortedUp n n f g → IsSortOf n f g
sort_of {n} {g = g} s = (s.sorted, s.permutation, algorithm_check-true n g s.sorted)

sort_of_some : {n : ℕ} {f : ℕ → ℕ} {o : Option (ℕ → ℕ)} → Sorts n f o → IsSortOfSome n f o
sort_of_some (g, e, s) = (g, e, sort_of s)

-- The insertion sort, the selection sort, the binary insertion sort, the shell sort and the heap sort
-- each put the first `n` members of every array in order: each member stands there as often as
-- before, nothing behind them is touched, `algorithm_check` returns TRUE for the result, and the
-- loops end. The merging sort does so with one member or more, whatever is in `temp`.
pub sorts_IsSortOf :
    (n : ℕ) (f temp : ℕ → ℕ)
    → IsSortOf n f (algorithm_insert_sort f n)
      × IsSortOf n f (algorithm_select_sort f n)
      × IsSortOfSome n f (algorithm_bisearch_insert_sort f n)
      × IsSortOfSome n f (algorithm_shell_sort f n)
      × IsSortOfSome n f (algorithm_heap_sort f n)
      × IsSortOfSome (n + 1) f (algorithm_merging_sort temp f (n + 1))
sorts_IsSortOf n f temp = (
  sort_of (algorithm_insert_sort-IsSortedUp n f),
  sort_of (algorithm_select_sort-IsSortedUp n f),
  sort_of_some (algorithm_bisearch_insert_sort-IsSortedUp n f),
  sort_of_some (algorithm_shell_sort-IsSortedUp n f),
  sort_of_some (algorithm_heap_sort-IsSortedUp n f),
  sort_of_some (algorithm_merging_sort-IsSortedUp n temp f),
)
