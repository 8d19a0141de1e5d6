-- ===== src/Algorithm/MergeSort.antt =====
-- `algorithm_merging_sort`.
-- The `int` sum `start + end` does not overflow while the length is at most 2 ^ 30.
use zxlib.Prelude.{
  ℕ, zero, suc, ◌+◌, ◌-◌, ◌/◌, ◌&&◌, Option, none, some, ltb, leb, ◌==◌, if◌then◌else◌,
}
use zxlib.Prelude.Family.{update}
use zxlib.Prelude.Loop.{for_up}

-- Where the merging stands.
pub record Merging : Type 0 where
  pub i : ℕ
  pub j : ℕ
  pub k : ℕ
  pub temp : ℕ → ℕ

-- `temp[k++] = array[i++]` and `temp[k++] = array[j++]`
abbrev pub take_left : (ℕ → ℕ) → Merging → Merging
take_left array m = record {
  i = m.i + 1;
  j = m.j;
  k = m.k + 1;
  temp = update m.temp m.k (array m.i);
}

abbrev pub take_right : (ℕ → ℕ) → Merging → Merging
take_right array m = record {
  i = m.i;
  j = m.j + 1;
  k = m.k + 1;
  temp = update m.temp m.k (array m.j);
}

-- The three loops, the first on fuel. The end is at `stop - 1`.
unfoldable pub merge_both : ℕ → (ℕ → ℕ) → (mid stop : ℕ) → Merging → Option Merging
merge_both zero array mid stop m = none
merge_both (suc fuel) array mid stop m =
    let left = merge_both fuel array mid stop (take_left array m) in
    let right = merge_both fuel array mid stop (take_right array m) in
    if leb m.i mid && ltb m.j stop
    then (if ltb (array m.i) (array m.j) then left else right)
    else some m

-- `d` is how many are left.
unfoldable pub copy_left : (d : ℕ) → (ℕ → ℕ) → Merging → Merging
copy_left zero array m = m
copy_left (suc d) array m = copy_left d array (take_left array m)

unfoldable pub copy_right : (d : ℕ) → (ℕ → ℕ) → Merging → Merging
copy_right zero array m = m
copy_right (suc d) array m = copy_right d array (take_right array m)

unfoldable pub copy_rest : (ℕ → ℕ) → (mid stop : ℕ) → Merging → Merging
copy_rest array mid stop m =
    let n = copy_left (mid + 1 - m.i) array m in copy_right (stop - n.j) array n

-- `for(i = start; i < stop; i++) array[i] = temp[i]`
unfoldable pub copy_back : (start stop : ℕ) → (ℕ → ℕ) → (ℕ → ℕ) → ℕ → ℕ
copy_back start stop temp array =
    for_up (stop - start) (λ d a. update a (start + d) (temp (start + d))) array

-- The array and `temp` after the merging of two parts.
unfoldable pub merge : (start mid stop : ℕ) → (ℕ → ℕ) × (ℕ → ℕ) → Option ((ℕ → ℕ) × (ℕ → ℕ))
merge start mid stop (array, temp) =
    elim (merge_both (stop - start + 1) array mid stop
      (record { i = start; j = mid + 1; k = start; temp = temp })) [
        | none ↦ none
        | some m ↦
            let done = (copy_rest array mid stop m).temp in
            some (copy_back start stop done array, done)
      ]

-- The recursion, on fuel.
unfoldable pub merging_sort : ℕ → (start last : ℕ) → (ℕ → ℕ) × (ℕ → ℕ) → Option ((ℕ → ℕ) × (ℕ → ℕ))
merging_sort zero start last a = none
merging_sort (suc fuel) start last a =
    let mid = (start + last) / 2 in
    if start == last then some a else elim (merging_sort fuel start mid a) [
      | none ↦ none
      | some b ↦ elim (merging_sort fuel (mid + 1) last b) [
        | none ↦ none
        | some c ↦ merge start mid (last + 1) c
      ]
    ]

-- `temp` is not set before. An array without members makes the source call itself without end.
unfoldable pub algorithm_merging_sort : (temp array : ℕ → ℕ) → ℕ → Option (ℕ → ℕ)
algorithm_merging_sort temp array len =
    if len == 0
    then none
    else elim (merging_sort len 0 (len - 1) (array, temp)) [ none ↦ none | some (a, t) ↦ some a ]
