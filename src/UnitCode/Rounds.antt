-- ===== src/UnitCode/Rounds.antt =====
-- The double loops, and one round of the do loop: every line of the unit is visited.
use zxlib.Prelude.{
  ℕ, zero, suc, ◌<◌, ◌≤◌, ◌≡◌, ◌⊎◌, inl, inr, refl, arith, false, if◌then◌else◌, Bool-cases,
  ℕ_discrete,
}
use zxlib.Prelude.Loop.{for_up}
use zxlib.UnitCode.{Marks, mark_a, Sweep, decode_sweep, decode_pass}
use zxlib.UnitCode.Cell.{PackageUnit, Axis, along_k, along_i, along_j, cell}
use zxlib.UnitCode.Repairs.{here}
use zxlib.UnitCode.Passes.{
  IsMarked, IsMarked-line, IsMarked-Repairs, IsFull, Passed, Passed-here, Passed-trans,
}
use zxlib.UnitCode.Lines.{Row, visit, Row-Passed}

-- The first `n` rows of a direction.
abbrev Rows : Axis → ℕ → Axis → ℕ → ℕ → Type 0
Rows d n d' a' b' = (d' ≡ d) × (a' < n) × (b' < 8)

skip-Row-Passed :
    (m : Marks) (d : Axis) (a : ℕ) (s : Sweep)
    → a < 8
    → IsMarked m s.cells
    → mark_a m d a ≡ false
    → Passed (Row d a 8) s s
skip-Row-Passed m d a s p marked unmarked = record {
  reach = here;
  calm = λ f. (f, refl);
  busy = λ f. inl f;
  grows = omega arith;
  single = λ f d' a' b' (x, y, z). rw (x, y) (λ c r l. absurd (cc (full b' z c r, l)));
  clean = λ f g d' a' b' (x, y, z). rw (x, y) (full b' z);
  idle = λ f. (refl, refl, refl);
}
  where
    full : (b : ℕ) → b < 8 → IsFull s.cells d a b
    full b q c r = elim (Bool-cases (cell s.cells d a b c).exist) [
      | inl t ↦ t
      | inr l ↦ let marks = IsMarked-line m s.cells d a b c marked p q r l in ground arith
    ]

abbrev visit_row : Marks → Axis → ℕ → Sweep → Sweep
visit_row m d a s = if mark_a m d a then for_up 8 (visit m d a) s else s

visit_row-Passed :
    (m : Marks) (d : Axis) (a : ℕ) (s : Sweep)
    → a < 8
    → IsMarked m s.cells
    → Passed (Row d a 8) s (visit_row m d a s)
visit_row-Passed m d a s p marked = elim (Bool-cases (mark_a m d a)) [
  | inl t ↦ rw t (Row-Passed m d a s p marked 8 (omega arith))
  | inr f ↦ rw f (skip-Row-Passed m d a s p marked f)
]

Rows-Passed :
    (m : Marks) (d : Axis) (s : Sweep)
    → IsMarked m s.cells
    → (n : ℕ) → n ≤ 8
    → Passed (Rows d n) s (for_up n (visit_row m d) s)
unfolding for_up
Rows-Passed m d s marked zero h =
    Passed-trans (λ d' a' b' l. absurd (omega arith)) (Passed-here s) (Passed-here s)
Rows-Passed m d s marked (suc n) h =
    let before = Rows-Passed m d s marked n (omega arith) in
    Passed-trans (λ d' a' b' (x, y, z). upto a' n x y z) before
      (visit_row-Passed m d n _ (omega arith) (IsMarked-Repairs m marked before.reach))
  where
    upto :
        {d' : Axis} {b' : ℕ} (a' n : ℕ)
        → d' ≡ d
        → a' < suc n
        → b' < 8
        → Rows d n d' a' b' ⊎ Row d n 8 d' a' b'
    upto a' n x y z = elim (ℕ_discrete a' n) [
      | yes e ↦ inr (x, e, z)
      | no ne ↦ inl (x, omega arith, z)
    ]

-- One double loop visits every line of its direction.
decode_sweep-Passed :
    (m : Marks) (d : Axis) (s : Sweep)
    → IsMarked m s.cells
    → Passed (Rows d 8) s (decode_sweep m d s)
unfolding decode_sweep
decode_sweep-Passed m d s marked = Rows-Passed m d s marked 8 (omega arith)

abbrev pub start : PackageUnit → Sweep
start u = record { cells = u; check = false; result = 0 }

abbrev pub EveryLine : Axis → ℕ → ℕ → Type 0
EveryLine d a b = (a < 8) × (b < 8)

-- One round visits every line.
pub decode_pass-Passed :
    (m : Marks) (u : PackageUnit) → IsMarked m u → Passed EveryLine (start u) (decode_pass m u)
unfolding decode_pass
decode_pass-Passed m u marked =
    let k = decode_sweep-Passed m along_k (start u) marked in
    let i = decode_sweep-Passed m along_i _ (IsMarked-Repairs m marked k.reach) in
    let ki : Passed (λ d a b. Rows along_k 8 d a b ⊎ Rows along_i 8 d a b) (start u) _ =
      Passed-trans (λ d a b l. l) k i in
    Passed-trans (λ d a b (p, q). split d p q) ki
      (decode_sweep-Passed m along_j _ (IsMarked-Repairs m marked ki.reach))
  where
    split :
        (d : Axis) {a b : ℕ}
        → a < 8
        → b < 8
        → (Rows along_k 8 d a b ⊎ Rows along_i 8 d a b) ⊎ Rows along_j 8 d a b
    split along_k p q = inl (inl (refl, p, q))
    split along_i p q = inl (inr (refl, p, q))
    split along_j p q = inr (refl, p, q)
