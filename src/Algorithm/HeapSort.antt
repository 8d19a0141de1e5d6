-- ===== src/Algorithm/HeapSort.antt =====
-- `algorithm_heap_max`, `algorithm_heap_sort` and `algorithm_shell_sort`.
-- The `int` index `head * 2 + 1` does not overflow while the length is at most 2 ^ 30.
use zxlib.Prelude.{
  ℕ, zero, suc, ◌+◌, ◌-◌, ◌*◌, ◌/◌, ◌&&◌, Option, none, some, ltb, leb, if◌then◌else◌,
}
use zxlib.Algorithm.Arrays.{algorithm_swap}

-- A loop over arrays of which a round may not end.
unfoldable pub for_some : ℕ → (ℕ → (ℕ → ℕ) → Option (ℕ → ℕ)) → (ℕ → ℕ) → Option (ℕ → ℕ)
for_some zero body array = some array
for_some (suc n) body array = elim (for_some n body array) [ none ↦ none | some a ↦ body n a ]

-- The larger child, where `i` is the left one.
unfoldable pub larger_child : (ℕ → ℕ) → (i len : ℕ) → ℕ
larger_child array i len = if ltb (i + 1) len && ltb (array i) (array (i + 1)) then i + 1 else i

-- The loop of `algorithm_heap_max`, on fuel, from the left child `i` on.
unfoldable pub heap_loop : ℕ → (ℕ → ℕ) → (i len : ℕ) → Option (ℕ → ℕ)
heap_loop zero array i len = none
heap_loop (suc fuel) array i len =
    let head = (i - 1) / 2 in
    let child = larger_child array i len in
    let rest = heap_loop fuel (algorithm_swap head child array) (child * 2 + 1) len in
    if ltb i len then (if leb (array child) (array head) then some array else rest) else some array

unfoldable pub algorithm_heap_max : (ℕ → ℕ) → (head len : ℕ) → Option (ℕ → ℕ)
algorithm_heap_max array head len = heap_loop (len + 1) array (head * 2 + 1) len

-- The first loop, whose `i` runs from `len - 1` down to 0.
unfoldable pub heap_build : (ℕ → ℕ) → ℕ → Option (ℕ → ℕ)
heap_build array len = for_some len (λ k a. algorithm_heap_max a (len - 1 - k) len) array

-- A round of the second loop.
unfoldable pub heap_round : (i : ℕ) → (ℕ → ℕ) → Option (ℕ → ℕ)
heap_round i array = algorithm_heap_max (algorithm_swap 0 i array) 0 i

-- In the second loop `i` runs from `len - 1` down to 1.
unfoldable pub algorithm_heap_sort : (ℕ → ℕ) → ℕ → Option (ℕ → ℕ)
algorithm_heap_sort array len = elim (heap_build array len) [
  | none ↦ none
  | some heap ↦ for_some (len - 1) (λ k. heap_round (len - 1 - k)) heap
]
