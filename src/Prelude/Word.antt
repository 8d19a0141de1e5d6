-- ===== src/Prelude/Word.antt =====
-- 64-bit integers as bit patterns below `2 ^ 64`: the shifts of C and the reading of a bit field.
use Prim.Native.Nat.{ℕ, ◌+◌, ◌-◌, ◌*◌, ◌/◌, ◌%◌, ◌^◌, bit_and}
use mathlib.Core.Path.{◌≡◌}
use native.Mathlib.Nat.{mod-add-mod}
use native.Mathlib.Omega.{arith}
use zxlib.Prelude.Tests.{ltb, if◌then◌else◌}
use zxlib.Prelude.Bits.{bit_and_mask}

-- `x << k`
abbrev pub shl : ℕ → ℕ → ℕ
shl x k = x * 2 ^ k % 2 ^ 64

-- `x >> k` on a signed integer copies the sign bit in from the left.
abbrev pub sar : ℕ → ℕ → ℕ
sar x k = x / 2 ^ k + (if ltb x (2 ^ 63) then 0 else 2 ^ 64 - 2 ^ (64 - k))

-- `(d >> offset) & (((__int64)1 << bit) - 1)`
unfoldable pub field : (offset bit : ℕ) → ℕ → ℕ
field offset bit d = bit_and (sar d offset) (2 ^ bit - 1)

-- The mask drops what the sign bit has filled in.
pub field_lem : (k n d : ℕ) → (2 ^ 64 - 2 ^ (64 - k)) % 2 ^ n ≡ 0 → field k n d ≡ d / 2 ^ k % 2 ^ n
unfolding field
field_lem k n d h =
    ground
      (arith, bit_and_mask n (sar d k), mod-add-mod (2 ^ 64 - 2 ^ (64 - k)) (2 ^ n) (d / 2 ^ k))
