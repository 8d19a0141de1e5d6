-- ===== src/Prelude/First.antt =====
-- A loop that returns the first number that passes a test.
use Prim.Native.Nat.{ℕ, zero, suc, ◌<◌}
use mathlib.Core.Path.{◌≡◌, refl}
use mathlib.Core.Bool.{Bool, true}
use mathlib.Core.Option.{Option, none, some}
use native.Mathlib.Omega.{arith}
use zxlib.Prelude.Tests.{if◌then◌else◌}

unfoldable pub first : ℕ → (ℕ → Bool) → Option ℕ
first zero f = none
first (suc n) f = elim (first n f) [ some k ↦ some k | none ↦ if f n then some n else none ]

-- One more number.
first_suc :
    (n k : ℕ) (f : ℕ → Bool) (o : Option ℕ)
    → ((m : ℕ) → o ≡ some m → (m < n) × (f m ≡ true))
    → elim o [ some m ↦ some m | none ↦ if f n then some n else none ] ≡ some k
    → (k < suc n) × (f k ≡ true)
first_suc n k f (some m) h e = (ground (arith, e, h m refl), ground (arith, e, h m refl))
first_suc n k f none h e = (ground (arith, e), ground (arith, e))

pub first_sound : (n k : ℕ) (f : ℕ → Bool) → first n f ≡ some k → (k < n) × (f k ≡ true)
unfolding first
first_sound zero k f e = absurd (ground (arith, e))
first_sound (suc n) k f e = first_suc n k f (first n f) (λ m. first_sound n m f) e
