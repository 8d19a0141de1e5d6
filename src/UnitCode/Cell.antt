-- ===== src/UnitCode/Cell.antt =====
-- Cells of a unit along the three directions, and the write of one cell.
use zxlib.Prelude.{ℕ, ◌≡◌, refl, arith, ◌&&◌, ◌==◌, if◌then◌else◌}
use zxlib.Package.{Package}

-- `package ****u`: the pointers of a unit lead to packets of their own.
abbrev pub PackageUnit : Type 0
PackageUnit = ℕ → ℕ → ℕ → Package

-- The direction of a line, named for the index that runs along it.
pub data Axis : Type 0 where
  along_k along_i along_j : Axis

-- `a` and `b` are the outer and the inner loop of unit.c for that direction, `c` runs on the line.
abbrev pub cell {ℓ} : {A : Type ℓ} → (ℕ → ℕ → ℕ → A) → Axis → (a b c : ℕ) → A
cell u along_k a b c = u a b c
cell u along_i a b c = u c a b
cell u along_j a b c = u b c a

abbrev pub store : PackageUnit → (i j k : ℕ) → Package → PackageUnit
store u i j k p x y z = if x == i && (y == j && z == k) then p else u x y z

abbrev pub put : PackageUnit → Axis → (a b c : ℕ) → Package → PackageUnit
put u along_k a b c p = store u a b c p
put u along_i a b c p = store u c a b p
put u along_j a b c p = store u b c a p

module _ (u : PackageUnit) (a b c : ℕ) (p : Package) where
  pub cell-put :
      (d : Axis) (x y z : ℕ)
      → cell (put u d a b c p) d x y z
        ≡ (if x == a && (y == b && z == c) then p else cell u d x y z)
  cell-put along_k x y z = refl
  cell-put along_i x y z = ground arith
  cell-put along_j x y z = ground arith
