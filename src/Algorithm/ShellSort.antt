-- ===== src/Algorithm/ShellSort.antt =====
-- `algorithm_shell_sort`.
use zxlib.Prelude.{ℕ, zero, suc, ◌+◌, ◌-◌, ◌/◌, ◌&&◌, Option, none, some, ltb, leb, if◌then◌else◌}
use zxlib.Prelude.Family.{update}

-- The inner loop and the write behind it, on fuel.
unfoldable pub shell_down : ℕ → (d tmp j : ℕ) → (ℕ → ℕ) → Option (ℕ → ℕ)
shell_down zero d tmp j array = none
shell_down (suc fuel) d tmp j array =
    let rest = shell_down fuel d tmp (j - d) (update array j (array (j - d))) in
    if leb d j && ltb tmp (array (j - d)) then rest else some (update array j tmp)

-- The loop for one `d`, on fuel, from `i` on.
unfoldable pub shell_from : ℕ → (d i len : ℕ) → (ℕ → ℕ) → Option (ℕ → ℕ)
shell_from zero d i len array = none
shell_from (suc fuel) d i len array =
    if ltb i len
    then elim (shell_down (i + 1) d (array i) i array) [
      | none ↦ none
      | some next ↦ shell_from fuel d (i + d) len next
    ]
    else some array

-- The outer loop, on fuel.
unfoldable pub shell_loop : ℕ → (d len : ℕ) → (ℕ → ℕ) → Option (ℕ → ℕ)
shell_loop zero d len array = none
shell_loop (suc fuel) d len array =
    if ltb 0 d
    then elim (shell_from (len + 1) d 0 len array) [
      | none ↦ none
      | some next ↦ shell_loop fuel (d / 2) len next
    ]
    else some array

unfoldable pub algorithm_shell_sort : (ℕ → ℕ) → ℕ → Option (ℕ → ℕ)
algorithm_shell_sort array len = shell_loop (len + 1) len len array
