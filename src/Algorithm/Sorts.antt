-- ===== src/Algorithm/Sorts.antt =====
-- `algorithm_check`, `algorithm_insert_sort`, `algorithm_bisearch`, `algorithm_bisearch_insert_sort`
-- and `algorithm_select_sort`.
use zxlib.Prelude.{
  ℕ, zero, suc, ◌+◌, ◌-◌, ◌/◌, Bool, true, false, Option, none, some, ltb, ◌==◌, if◌then◌else◌,
}
use zxlib.Prelude.Family.{update}
use zxlib.Prelude.Loop.{for_up}
use zxlib.Algorithm.Arrays.{algorithm_swap}

unfoldable pub algorithm_check : (ℕ → ℕ) → ℕ → Bool
algorithm_check array len =
    for_up len
      (λ i check.
        if ltb (i + 1) len then (if ltb (array (i + 1)) (array i) then false else check) else check)
      true

-- The inner loop: `tmp` goes down from `j` past what is larger.
unfoldable pub put_down : ℕ → ℕ → (ℕ → ℕ) → ℕ → ℕ
put_down tmp zero array = update array 0 tmp
put_down tmp (suc j) array =
    let rest = put_down tmp j (update array (suc j) (array j)) in
    if ltb tmp (array j) then rest else update array (suc j) tmp

unfoldable pub algorithm_insert_sort : (ℕ → ℕ) → ℕ → ℕ → ℕ
algorithm_insert_sort array len = for_up len (λ i array. put_down (array i) i array) array

-- The recursion of the search, on fuel. `offset` is where the part of the array starts. A length of
-- -1, which the source has for `mid` 0, ends the search as 0 does.
unfoldable pub bisearch : ℕ → (ℕ → ℕ) → (offset len num : ℕ) → Option ℕ
bisearch zero array offset len num = none
bisearch (suc fuel) array offset len num =
    let mid = len / 2 in
    let right = bisearch fuel array (offset + (mid + 1)) (len - mid - 1) num in
    let left = bisearch fuel array offset (mid - 1) num in
    if len == 0
    then some 0
    else if ltb (array (offset + mid)) num
    then elim right [ none ↦ none | some i ↦ some (mid + 1 + i) ]
    else if ltb num (array (offset + mid))
    then left
    else some mid

unfoldable pub algorithm_bisearch : (ℕ → ℕ) → (len num : ℕ) → Option ℕ
algorithm_bisearch array len num = bisearch (len + 1) array 0 len num

-- The search of the binary insertion, on fuel. `stop` is `end + 1`, and what is returned.
unfoldable pub find_place : ℕ → (ℕ → ℕ) → (tmp start stop : ℕ) → Option ℕ
find_place zero array tmp start stop = none
find_place (suc fuel) array tmp start stop =
    let mid = (start + stop - 1) / 2 in
    let before = find_place fuel array tmp start mid in
    let behind = find_place fuel array tmp (mid + 1) stop in
    if ltb start stop then (if ltb tmp (array mid) then before else behind) else some stop

-- `for(j = i; j > stop; j--) array[j] = array[j - 1]`, with `d` rounds left.
unfoldable pub move_up : (d stop : ℕ) → (ℕ → ℕ) → ℕ → ℕ
move_up zero stop array = array
move_up (suc d) stop array = move_up d stop (update array (stop + suc d) (array (stop + d)))

-- `none` is a search without end.
unfoldable pub put_at : (i : ℕ) → Option (ℕ → ℕ) → Option (ℕ → ℕ)
put_at i none = none
put_at i (some array) = elim (find_place (i + 1) array (array i) 0 i) [
  | none ↦ none
  | some stop ↦ some (update (move_up (i - stop) stop array) stop (array i))
]

-- The loop starts at 1.
unfoldable pub algorithm_bisearch_insert_sort : (ℕ → ℕ) → ℕ → Option (ℕ → ℕ)
algorithm_bisearch_insert_sort array len = for_up (len - 1) (λ i. put_at (i + 1)) (some array)

-- `j` runs from `i`, in `len - i` rounds.
unfoldable pub find_min : (ℕ → ℕ) → (i len : ℕ) → ℕ
find_min array i len =
    for_up (len - i) (λ d min. if ltb (array (i + d)) (array min) then i + d else min) i

unfoldable pub algorithm_select_sort : (ℕ → ℕ) → ℕ → ℕ → ℕ
algorithm_select_sort array len =
    for_up len (λ i array. algorithm_swap i (find_min array i len) array) array
