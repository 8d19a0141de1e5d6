-- ===== src/UnitCode/Marking.antt =====
-- The marks of `unit_decode` cover the lost packets.
use zxlib.Prelude.{ℕ, ◌<◌, ◌≡◌, arith, true, false, ℕ_discrete}
use zxlib.Prelude.Loop.{for_up, for_up_inv}
use zxlib.UnitCode.{Marks, mark_cell, marks}
use zxlib.UnitCode.Cell.{PackageUnit}
use zxlib.UnitCode.Passes.{IsMarked}

abbrev Has : (x y z : ℕ) → Marks → Type 0
Has x y z m = (m.x x ≡ true) × (m.y y ≡ true) × (m.z z ≡ true)

-- A loop whose rounds keep the marks, and whose round `x` sets them, sets them.
hits :
    (x y z : ℕ) (n k : ℕ) (body : ℕ → Marks → Marks) (m : Marks)
    → k < n
    → ((i : ℕ) (t : Marks) → Has x y z t → Has x y z (body i t))
    → ((t : Marks) → Has x y z (body k t))
    → Has x y z (for_up n body m)
hits x y z n k body m p keep sets =
    for_up_inv (λ n t. k < n → Has x y z t) n body m
      (λ i t _ h lt. elim (ℕ_discrete k i) [
        | yes e ↦ rw (← e) (sets t)
        | no ne ↦ keep i t (h (omega arith))
      ])
      (λ lt. absurd (omega arith)) p

module _ (u : PackageUnit) (x y z : ℕ) where
  mark_cell-Has : (i j k : ℕ) (m : Marks) → Has x y z m → Has x y z (mark_cell u i j k m)
  unfolding mark_cell
  mark_cell-Has i j k m h = ground arith

  mark_cell_self : (u x y z).exist ≡ false → (m : Marks) → Has x y z (mark_cell u x y z m)
  unfolding mark_cell
  mark_cell_self l m = ground arith

  line_keeps : (i j : ℕ) (m : Marks) → Has x y z m → Has x y z (for_up 8 (mark_cell u i j) m)
  line_keeps i j m =
      for_up_inv (λ n. Has x y z) 8 (mark_cell u i j) m (λ k t _. mark_cell-Has i j k t)

  plane_keeps :
      (i : ℕ) (m : Marks) → Has x y z m → Has x y z (for_up 8 (λ j. for_up 8 (mark_cell u i j)) m)
  plane_keeps i m = for_up_inv (λ n. Has x y z) 8 _ m (λ j t _. line_keeps i j t)

-- `unit_decode` marks the three planes of each lost packet.
pub marks-IsMarked : (u : PackageUnit) → IsMarked (marks u) u
unfolding marks
marks-IsMarked u x y z p q r l = hits x y z 8 x _ _ p (plane_keeps u x y z) λ m.
    hits x y z 8 y _ m q (line_keeps u x y z x)
      λ m. hits x y z 8 z _ m r (mark_cell-Has u x y z x y) (mark_cell_self u x y z l)
