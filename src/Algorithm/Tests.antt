-- ===== src/Algorithm/Tests.antt =====
-- Small arrays.
use zxlib.Prelude.{
  ℕ, zero, suc, ◌+◌, ◌-◌, ◌*◌, ◌/◌, ◌<◌, ◌≤◌, ◌≡◌, refl, arith, Bool, true, false, Option, none,
  some,
}
use zxlib.Algorithm.Arrays.{algorithm_swap}
use zxlib.Algorithm.Sorts.{
  algorithm_check, algorithm_insert_sort, algorithm_bisearch, algorithm_bisearch_insert_sort,
  algorithm_select_sort,
}
use zxlib.Algorithm.HeapSort.{algorithm_heap_sort}
use zxlib.Algorithm.ShellSort.{algorithm_shell_sort}
use zxlib.Algorithm.MergeSort.{algorithm_merging_sort}
use zxlib.Algorithm.Sorted.{IsSortOf, IsSortOfSome, sorts_IsSortOf}
use zxlib.Algorithm.Search.{algorithm_bisearch_lem}

-- 5, 1, 7, 1
abbrev mixed : ℕ → ℕ
mixed zero = 5
mixed (suc zero) = 1
mixed (suc (suc zero)) = 7
mixed (suc (suc (suc k))) = 1

test-algorithm_check : algorithm_check mixed 4 ≡ false
unfolding algorithm_check zxlib.Prelude.Loop.for_up
test-algorithm_check = refl

test-algorithm_insert_sort : algorithm_insert_sort mixed 4 2 ≡ 5
unfolding algorithm_insert_sort zxlib.Algorithm.Sorts.put_down zxlib.Prelude.Loop.for_up
test-algorithm_insert_sort = refl

test-algorithm_select_sort : algorithm_select_sort mixed 4 3 ≡ 7
unfolding algorithm_select_sort zxlib.Algorithm.Sorts.find_min algorithm_swap
    zxlib.Prelude.Loop.for_up
test-algorithm_select_sort = refl

-- The member at `k` of what a sort returns.
abbrev member : ℕ → Option (ℕ → ℕ) → Option ℕ
member k o = elim o [ none ↦ none | some f ↦ some (f k) ]

-- 10, 20, 30, 40
abbrev tens : ℕ → ℕ
tens k = 10 * (k + 1)

test-algorithm_bisearch : algorithm_bisearch tens 4 40 ≡ some 3
unfolding algorithm_bisearch zxlib.Algorithm.Sorts.bisearch
test-algorithm_bisearch = refl

-- 25 stands between 20 and 30, at 2.
test-missing : algorithm_bisearch tens 4 25 ≡ some 1
unfolding algorithm_bisearch zxlib.Algorithm.Sorts.bisearch
test-missing = refl

test-algorithm_heap_sort : member 2 (algorithm_heap_sort mixed 4) ≡ some 5
unfolding algorithm_heap_sort algorithm_swap zxlib.Algorithm.HeapSort.for_some
    zxlib.Algorithm.HeapSort.larger_child zxlib.Algorithm.HeapSort.heap_loop
    zxlib.Algorithm.HeapSort.algorithm_heap_max zxlib.Algorithm.HeapSort.heap_build
    zxlib.Algorithm.HeapSort.heap_round
test-algorithm_heap_sort = refl

test-algorithm_shell_sort : member 1 (algorithm_shell_sort mixed 4) ≡ some 1
unfolding algorithm_shell_sort zxlib.Algorithm.ShellSort.shell_loop
    zxlib.Algorithm.ShellSort.shell_from zxlib.Algorithm.ShellSort.shell_down
test-algorithm_shell_sort = refl

test-algorithm_merging_sort : member 2 (algorithm_merging_sort mixed mixed 4) ≡ some 5
unfolding algorithm_merging_sort zxlib.Algorithm.MergeSort.merging_sort
    zxlib.Algorithm.MergeSort.merge zxlib.Algorithm.MergeSort.merge_both
    zxlib.Algorithm.MergeSort.copy_rest zxlib.Algorithm.MergeSort.copy_left
    zxlib.Algorithm.MergeSort.copy_right zxlib.Algorithm.MergeSort.copy_back
    zxlib.Prelude.Loop.for_up
test-algorithm_merging_sort = refl

sorts_IsSortOf_example :
    IsSortOf 4 mixed (algorithm_insert_sort mixed 4)
    × IsSortOf 4 mixed (algorithm_select_sort mixed 4)
    × IsSortOfSome 4 mixed (algorithm_bisearch_insert_sort mixed 4)
    × IsSortOfSome 4 mixed (algorithm_shell_sort mixed 4)
    × IsSortOfSome 4 mixed (algorithm_heap_sort mixed 4)
    × IsSortOfSome 5 mixed (algorithm_merging_sort mixed mixed 5)
sorts_IsSortOf_example = sorts_IsSortOf 4 mixed mixed

algorithm_bisearch_lem_example :
    ((k : ℕ) → k < 4 → algorithm_bisearch tens 4 (tens k) ≡ some k)
    × ((num : ℕ)
        → 2 ≤ 4
        → tens (4 / 2 - 1) < num
        → num < tens (4 / 2)
        → algorithm_bisearch tens 4 num ≡ some (4 / 2 - 1))
algorithm_bisearch_lem_example = algorithm_bisearch_lem tens 4 (λ i j p q. omega arith)
