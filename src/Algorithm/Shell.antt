-- ===== src/Algorithm/Shell.antt =====
-- The shell sort: each `d` permutes, and 1, the last, is the insertion sort.
use zxlib.Prelude.{
  ℕ, zero, suc, ◌+◌, ◌-◌, ◌/◌, ◌<◌, ◌≤◌, ◌≡◌, refl, subst, sym, arith, fun_ext, Option, some,
  ℕ_discrete, dec_lt, lt→ltb,
}
use zxlib.Prelude.Family.{update}
use zxlib.Algorithm.Arrays.{
  algorithm_swap, IsPermutation, IsPermutation-self, IsPermutation-trans, swap-IsPermutation,
}
use zxlib.Algorithm.Sorts.{put_down}
use zxlib.Algorithm.ShellSort.{shell_down, shell_from, shell_loop, algorithm_shell_sort}
use zxlib.Algorithm.Insert.{IsSortedUp, Sorts, IsSortedUp-start, put_down-IsSortedUp}

abbrev Permutes : ℕ → (ℕ → ℕ) → Option (ℕ → ℕ) → Type 0
Permutes n f o = (g : ℕ → ℕ) × (o ≡ some g) × IsPermutation n f g

-- A move by `d` is a swap.
move-swap :
    (d tmp j : ℕ) (f : ℕ → ℕ)
    → 0 < d
    → d ≤ j
    → update (update f j (f (j - d))) (j - d) tmp ≡ algorithm_swap (j - d) j (update f j tmp)
unfolding algorithm_swap
move-swap d tmp j f p q = fun_ext λ k. ground arith

shell_down-Permutes :
    (fuel d tmp j n : ℕ) (f : ℕ → ℕ)
    → 0 < d
    → j < fuel
    → j < n
    → Permutes n (update f j tmp) (shell_down fuel d tmp j f)
unfolding shell_down
shell_down-Permutes zero d tmp j n f p q r = absurd (omega arith)
shell_down-Permutes (suc fuel) d tmp j n f p q r = elim (dec_lt j d) [
  | yes low ↦ (update f j tmp, ground arith, IsPermutation-self n (update f j tmp))
  | no high ↦ elim (dec_lt tmp (f (j - d))) [
    | yes less ↦
        let (g, e, s) =
          shell_down-Permutes fuel d tmp (j - d) n (update f j (f (j - d))) p (omega arith)
            (omega arith) in
        (
          g,
          ground (arith, e),
          IsPermutation-trans (swap-IsPermutation (j - d) j (update f j tmp) n (omega arith) r)
              (subst (λ (h : ℕ → ℕ). IsPermutation n h g) (move-swap d tmp j f p (omega arith)) s),
        )
    | no ge ↦ (update f j tmp, ground arith, IsPermutation-self n (update f j tmp))
  ]
]

same_update : (i : ℕ) (f : ℕ → ℕ) → update f i (f i) ≡ f
same_update i f = fun_ext λ k. ground arith

shell_from-Permutes :
    (fuel d i n : ℕ) (f : ℕ → ℕ) → 0 < d → n - i < fuel → Permutes n f (shell_from fuel d i n f)
unfolding shell_from
shell_from-Permutes zero d i n f p q = absurd (omega arith)
shell_from-Permutes (suc fuel) d i n f p q = elim (dec_lt i n) [
  | no done ↦ (f, ground arith, IsPermutation-self n f)
  | yes more ↦
      let (g, e, s) = shell_down-Permutes (i + 1) d (f i) i n f p (omega arith) more in
      let (h, e', t) = shell_from-Permutes fuel d (i + d) n g p (omega arith) in
      (
        h,
        rw (lt→ltb i n more, e) e',
        IsPermutation-trans (subst (λ (k : ℕ → ℕ). IsPermutation n k g) (same_update i f) s) t,
      )
]

-- With `d` 1 the inner loop is that of the insertion sort.
shell_down-put_down :
    (fuel tmp j : ℕ) (f : ℕ → ℕ) → j < fuel → shell_down fuel 1 tmp j f ≡ some (put_down tmp j f)
unfolding shell_down put_down
shell_down-put_down zero tmp j f p = absurd (omega arith)
shell_down-put_down (suc fuel) tmp zero f p = refl
shell_down-put_down (suc fuel) tmp (suc j) f p = rw (pred j) (elim (dec_lt tmp (f j)) [
  | yes less ↦ ground (arith, shell_down-put_down fuel tmp j (update f (suc j) (f j)))
  | no ge ↦ ground arith
])
  where
    pred : (j : ℕ) → suc j - 1 ≡ j
    pred j = omega arith

shell_from-IsSortedUp :
    (fuel i n : ℕ) (f g : ℕ → ℕ)
    → n - i < fuel
    → i ≤ n
    → IsSortedUp n i f g
    → (h : ℕ → ℕ) × (shell_from fuel 1 i n g ≡ some h) × IsSortedUp n n f h
unfolding shell_from
shell_from-IsSortedUp zero i n f g p q s = absurd (omega arith)
shell_from-IsSortedUp (suc fuel) i n f g p q s = elim (dec_lt i n) [
  | no done ↦ (g, ground arith, subst (λ (k : ℕ). IsSortedUp n k f g) (omega arith) s)
  | yes more ↦
      let (h, e, t) =
        shell_from-IsSortedUp fuel (i + 1) n f (put_down (g i) i g) (omega arith) (omega arith) (
          subst (λ (k : ℕ). IsSortedUp n k f (put_down (g i) i g)) (omega arith)
            (put_down-IsSortedUp n i f g more s)) in
      (h, rw (lt→ltb i n more, shell_down-put_down (i + 1) (g i) i g (omega arith)) e, t)
]

-- The last round of the outer loop.
shell_loop_one :
    (fuel n : ℕ) (f g : ℕ → ℕ)
    → 0 < fuel
    → IsPermutation n f g
    → Sorts n f (shell_loop (suc fuel) 1 n g)
unfolding shell_loop
shell_loop_one zero n f g p s = absurd (omega arith)
shell_loop_one (suc fuel) n f g p s =
    let (h, e, t) =
      shell_from-IsSortedUp (n + 1) 0 n f g (omega arith) (omega arith) (record {
        sorted = record { ordered = λ i j p q. absurd (omega arith) };
        permutation = s;
      }) in
    (h, rw e refl, t)

shell_loop-IsSortedUp :
    (fuel d n : ℕ) (f g : ℕ → ℕ)
    → d < fuel
    → 0 < d
    → IsPermutation n f g
    → Sorts n f (shell_loop fuel d n g)
unfolding shell_loop
shell_loop-IsSortedUp zero d n f g p q s = absurd (omega arith)
shell_loop-IsSortedUp (suc fuel) d n f g p q s = elim (dec_lt 1 d) [
  | yes two ↦
      let (h, e, t) = shell_from-Permutes (n + 1) d 0 n g q (omega arith) in
      let (k, e', u) =
        shell_loop-IsSortedUp fuel (d / 2) n f h (omega arith) (omega arith)
          (IsPermutation-trans s t) in
      (k, rw (lt→ltb 0 d q, e) e', u)
  | no one ↦
      subst (λ (k : ℕ). Sorts n f (shell_loop (suc fuel) k n g)) {x = 1} (omega arith)
        (shell_loop_one fuel n f g (omega arith) s)
]

pub algorithm_shell_sort-IsSortedUp : (n : ℕ) (f : ℕ → ℕ) → Sorts n f (algorithm_shell_sort f n)
unfolding algorithm_shell_sort shell_loop
algorithm_shell_sort-IsSortedUp n f = elim (ℕ_discrete n 0) [
  | yes e ↦ (f, rw e refl, subst (λ (k : ℕ). IsSortedUp n k f f) (sym e) (IsSortedUp-start n f))
  | no ne ↦
      shell_loop-IsSortedUp (n + 1) n n f f (omega arith) (omega arith) (IsPermutation-self n f)
]
