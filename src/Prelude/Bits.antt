-- ===== src/Prelude/Bits.antt =====
-- Binary digits at variables: one equation for the lowest digit of each operation, and `|` of
-- disjoint fields and `&` with a low mask as arithmetic.
use Prim.Native.Nat.{ℕ, zero, suc, ◌+◌, ◌-◌, ◌*◌, ◌/◌, ◌%◌, ◌^◌, ◌≤◌, ◌<◌, min, max}
use Prim.Native.Nat.{bit_and, bit_or, bit_xor, digits, bitwise, differ}
use Prim.Native.Nat.{bit_and-bitwise, bit_or-bitwise, bit_xor-bitwise}
use mathlib.Core.Path.{◌≡◌, refl, sym, ◌∙◌, ap}
use native.Mathlib.Nat.{le_refl, pow-suc, one-le-pow, div-div-eq-div-mul, mul_comm}
use native.Mathlib.Omega.{arith}

-- `digits` and `bitwise` for any operation on digits, where `pad` is what a zero leaves of the other
-- number.
module _ (pad : ℕ → ℕ) (op : ℕ → ℕ → ℕ) where
  digits-zero : (fuel y : ℕ) → digits pad op fuel 0 y ≡ pad y
  digits-zero zero y = refl
  digits-zero (suc fuel) y = refl

  -- More fuel than the first number changes nothing.
  digits_agree : (n m x y : ℕ) → x ≤ n → x ≤ m → digits pad op n x y ≡ digits pad op m x y
  digits_agree n m zero y p q = digits-zero n y ∙ sym (digits-zero m y)
  digits_agree zero m (suc x) y p q = absurd (omega arith)
  digits_agree (suc n) zero (suc x) y p q = absurd (omega arith)
  digits_agree (suc n) (suc m) (suc x) y p q =
      ap (λ (t : ℕ). t * 2 + op (suc x % 2) (y % 2))
        (digits_agree n m (suc x / 2) (y / 2) (omega arith) (omega arith))

  bitwise_step :
      ((y : ℕ) → pad y ≡ pad (y / 2) * 2 + op 0 (y % 2))
      → (x y : ℕ) → bitwise pad op x y ≡ bitwise pad op (x / 2) (y / 2) * 2 + op (x % 2) (y % 2)
  bitwise_step low zero y = low y
  bitwise_step low (suc x) y =
      ap (λ (t : ℕ). t * 2 + op (suc x % 2) (y % 2))
        (digits_agree x (suc x / 2) (suc x / 2) (y / 2) (omega arith) (omega arith))

pub bit_or_step : (x y : ℕ) → bit_or x y ≡ bit_or (x / 2) (y / 2) * 2 + max (x % 2) (y % 2)
bit_or_step x y =
    rw (bit_or-bitwise x y, bit_or-bitwise (x / 2) (y / 2))
      (bitwise_step (λ y. y) max (λ y. omega arith) x y)

pub bit_and_step : (x y : ℕ) → bit_and x y ≡ bit_and (x / 2) (y / 2) * 2 + min (x % 2) (y % 2)
bit_and_step x y =
    rw (bit_and-bitwise x y, bit_and-bitwise (x / 2) (y / 2))
      (bitwise_step (λ y. 0) min (λ y. omega arith) x y)

-- The digit of an exclusive or, in a form that `omega` reads.
differ_digit : (x y : ℕ) → x < 2 → y < 2 → differ x y ≡ (x + y) % 2
differ_digit zero zero p q = refl
differ_digit zero (suc zero) p q = refl
differ_digit zero (suc (suc y)) p q = absurd (omega arith)
differ_digit (suc zero) zero p q = refl
differ_digit (suc zero) (suc zero) p q = refl
differ_digit (suc zero) (suc (suc y)) p q = absurd (omega arith)
differ_digit (suc (suc x)) y p q = absurd (omega arith)

bit_xor_step : (x y : ℕ) → bit_xor x y ≡ bit_xor (x / 2) (y / 2) * 2 + differ (x % 2) (y % 2)
bit_xor_step x y =
    rw (bit_xor-bitwise x y, bit_xor-bitwise (x / 2) (y / 2))
      (bitwise_step (λ y. y) differ (λ y. low_digit y) x y)
  where
    low_digit : (y : ℕ) → y ≡ y / 2 * 2 + differ 0 (y % 2)
    low_digit y = omega (arith, differ_digit 0 (y % 2) (omega arith) (omega arith))

pub bit_xor_digit : (a b : ℕ) → bit_xor a b ≡ bit_xor (a / 2) (b / 2) * 2 + (a + b) % 2
bit_xor_digit a b =
    omega (arith, bit_xor_step a b, differ_digit (a % 2) (b % 2) (omega arith) (omega arith))

-- Zero as the second number, for both.
or_and-zero : (n x : ℕ) → x ≤ n → (bit_or x 0 ≡ x) × (bit_and x 0 ≡ 0)
or_and-zero n zero h = (refl, refl)
or_and-zero zero (suc x) h = absurd (omega arith)
or_and-zero (suc n) (suc x) h =
    let (u, v) = or_and-zero n (suc x / 2) (omega arith) in
    (omega (arith, bit_or_step (suc x) 0), omega (arith, bit_and_step (suc x) 0))

double-pow : (q k : ℕ) → q * 2 ^ suc k ≡ 2 * (q * 2 ^ k)
double-pow q k = omega (arith, ap (λ (t : ℕ). q * t) (pow-suc 2 k))

-- `q << k | r` is a sum when `r` fits `k` bits.
pub bit_or_fields : (k q r : ℕ) → r < 2 ^ k → bit_or (q * 2 ^ k) r ≡ q * 2 ^ k + r
bit_or_fields zero q r h = ground (arith, (or_and-zero q q (le_refl q)).0)
bit_or_fields (suc k) q r h = ground (
  arith,
  double-pow q k,
  pow-suc 2 k,
  bit_or_step (q * 2 ^ suc k) r,
  bit_or_fields k q (r / 2) (omega arith),
)

mask_fields : (k q r : ℕ) → r < 2 ^ k → bit_and (q * 2 ^ k + r) (2 ^ k - 1) ≡ r
mask_fields zero q r h = ground (arith, (or_and-zero (q * 2 ^ 0 + r) _ (le_refl _)).1)
mask_fields (suc k) q r h = ground (
  arith,
  double-pow q k,
  pow-suc 2 k,
  bit_and_step (q * 2 ^ suc k + r) (2 ^ suc k - 1),
  mask_fields k q (r / 2) (omega arith),
)

-- A mask of `k` ones keeps the remainder by `2 ^ k`.
pub bit_and_mask : (k a : ℕ) → bit_and a (2 ^ k - 1) ≡ a % 2 ^ k
bit_and_mask k a = ground (arith, one-le-pow k 2, mask_fields k (a / 2 ^ k) (a % 2 ^ k))

or_comm_fuel : (n a b : ℕ) → a ≤ n → b ≤ n → bit_or a b ≡ bit_or b a
or_comm_fuel zero zero zero p q = refl
or_comm_fuel zero zero (suc b) p q = absurd (omega arith)
or_comm_fuel zero (suc a) b p q = absurd (omega arith)
or_comm_fuel (suc n) a b p q = omega (
  arith,
  bit_or_step a b,
  bit_or_step b a,
  or_comm_fuel n (a / 2) (b / 2) (omega arith) (omega arith),
)

pub bit_or_comm : (a b : ℕ) → bit_or a b ≡ bit_or b a
bit_or_comm a b = or_comm_fuel (a + b) a b (omega arith) (omega arith)

-- A mask of high digits.
pub bit_and_high : (k a m : ℕ) → bit_and a (m * 2 ^ k) ≡ bit_and (a / 2 ^ k) m * 2 ^ k
bit_and_high zero a m = ground arith
bit_and_high (suc k) a m =
    rw (double-pow m k, double-pow (bit_and (a / 2 ^ suc k) m) k, half)
      (omega (
        arith,
        bit_and_step a (2 * (m * 2 ^ k)),
        bit_and_high k (a / 2) m,
        ap (λ (t : ℕ). bit_and (a / 2) t) even,
      ))
  where
    half : a / 2 ^ suc k ≡ a / 2 / 2 ^ k
    half = rw (div-div-eq-div-mul a 2 (2 ^ k), pow-suc 2 k, mul_comm 2 (2 ^ k)) refl

    even : 2 * (m * 2 ^ k) / 2 ≡ m * 2 ^ k
    even = omega arith
