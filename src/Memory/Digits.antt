-- ===== src/Memory/Digits.antt =====
-- One binary digit of `|`, `&` and a power of two.
use zxlib.Prelude.{
  ℕ, zero, suc, ◌-◌, ◌*◌, ◌/◌, ◌%◌, ◌^◌, ◌<◌, ◌≡◌, bit_and, bit_or, refl, ap, ◌∙◌, arith, min, max,
  Bool, true, ◌==◌, if◌then◌else◌, sym, ◌&&◌, ==_iff,
}
use zxlib.Prelude.Bits.{bit_or_step, bit_and_step, bit_and_mask, bit_and_high}
use native.Mathlib.Nat.{pow-suc, div-div-eq-div-mul}

abbrev pub digit : ℕ → ℕ → ℕ
digit zero x = x % 2
digit (suc k) x = digit k (x / 2)

pub digit-bit_or : (k x y : ℕ) → digit k (bit_or x y) ≡ max (digit k x) (digit k y)
digit-bit_or zero x y = omega (arith, bit_or_step x y)
digit-bit_or (suc k) x y = ap (λ (t : ℕ). digit k t) (halved x y) ∙ digit-bit_or k (x / 2) (y / 2)
  where
    halved : (x y : ℕ) → bit_or x y / 2 ≡ bit_or (x / 2) (y / 2)
    halved x y = omega (arith, bit_or_step x y)

pub digit-bit_and : (k x y : ℕ) → digit k (bit_and x y) ≡ min (digit k x) (digit k y)
digit-bit_and zero x y = omega (arith, bit_and_step x y)
digit-bit_and (suc k) x y = ap (λ (t : ℕ). digit k t) (halved x y) ∙ digit-bit_and k (x / 2) (y / 2)
  where
    halved : (x y : ℕ) → bit_and x y / 2 ≡ bit_and (x / 2) (y / 2)
    halved x y = omega (arith, bit_and_step x y)

digit_lem : (k x : ℕ) → digit k x ≡ x / 2 ^ k % 2
digit_lem zero x = omega arith
digit_lem (suc k) x =
    digit_lem k (x / 2)
    ∙ ap (λ (t : ℕ). t % 2) (div-div-eq-div-mul x 2 (2 ^ k) ∙ ap (λ (t : ℕ). x / t) (power k))
  where
    power : (k : ℕ) → 2 * 2 ^ k ≡ 2 ^ suc k
    power k = omega (arith, pow-suc 2 k)

-- `x & (1 << k)`
pub bit_and-pow : (k x : ℕ) → bit_and x (2 ^ k) ≡ digit k x * 2 ^ k
bit_and-pow k x =
    ap (λ (t : ℕ). bit_and x t) (one (2 ^ k))
    ∙ bit_and_high k x 1
    ∙ ap (λ (t : ℕ). t * 2 ^ k) (bit_and_mask 1 (x / 2 ^ k) ∙ sym (digit_lem k x))
  where
    one : (t : ℕ) → t ≡ 1 * t
    one t = omega arith

digit-zero : (k : ℕ) → digit k 0 ≡ 0
digit-zero zero = refl
digit-zero (suc k) = digit-zero k

-- The digits of a power of two.
pub digit-pow : (j k : ℕ) → digit j (2 ^ k) ≡ (if j == k then 1 else 0)
digit-pow zero zero = refl
digit-pow zero (suc k) = ground (arith, pow-suc 2 k)
digit-pow (suc j) zero = ground (arith, digit-zero j)
digit-pow (suc j) (suc k) = ap (λ (t : ℕ). digit j t) (halved k) ∙ digit-pow j k ∙ ground arith
  where
    halved : (k : ℕ) → 2 ^ suc k / 2 ≡ 2 ^ k
    halved k = omega (arith, pow-suc 2 k)

pub digit-lt : (k x : ℕ) → digit k x < 2
digit-lt zero x = omega arith
digit-lt (suc k) x = digit-lt k (x / 2)

-- `for` all numbers below `n`.
every_below : ℕ → (ℕ → Bool) → Bool
every_below zero f = true
every_below (suc n) f = every_below n f && f n

every_below_sound : (n i : ℕ) (f : ℕ → Bool) → every_below n f ≡ true → i < n → f i ≡ true
unfolding every_below
every_below_sound zero i f e h = absurd (omega arith)
every_below_sound (suc n) i f e h = ground (arith, every_below_sound n i f)

abbrev clears : ℕ → ℕ → Bool
clears j k = digit j (2 ^ 64 - 1 - 2 ^ k) == (if j == k then 0 else 1)

clears_table : every_below 8 (λ j. every_below 8 (clears j)) ≡ true
unfolding every_below
clears_table = refl

-- The digits of `~(1 << k)`, in a byte.
pub digit-cleared :
    (j k : ℕ) → j < 8 → k < 8 → digit j (2 ^ 64 - 1 - 2 ^ k) ≡ (if j == k then 0 else 1)
digit-cleared j k p q = (==_iff _ _).0 (
    every_below_sound 8 k (clears j)
      (every_below_sound 8 j (λ j. every_below 8 (clears j)) clears_table p) q)
