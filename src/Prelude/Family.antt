-- ===== src/Prelude/Family.antt =====
-- Families over the natural numbers, which stand for C arrays: update at one index, and the
-- exclusive or of a range.
use Prim.Native.Nat.{ℕ, zero, suc, ◌<◌, bit_xor}
use mathlib.Core.Path.{◌≡◌, refl, ap, ap₂, sym, ◌∙◌}
use mathlib.Core.Logic.{◌≢◌}
use native.Mathlib.Omega.{arith}
use zxlib.Prelude.Tests.{◌==◌, if◌then◌else◌}
use zxlib.Prelude.Xor.{xor_swap, xor_assoc, xor_comm, xor-zero, eq_of_xor_zero}
use native.Mathlib.Decide.{ℕ_discrete}

-- `f[i] = a`
abbrev pub update {ℓ} : {A : Type ℓ} → (ℕ → A) → ℕ → A → ℕ → A
update f i a j = if j == i then a else f j

-- `f[0] ^ … ^ f[n - 1]`
unfoldable pub xor_range : ℕ → (ℕ → ℕ) → ℕ
xor_range zero f = 0
xor_range (suc n) f = bit_xor (xor_range n f) (f n)

pub xor_range_ext :
    (n : ℕ) (f g : ℕ → ℕ) → ((i : ℕ) → i < n → f i ≡ g i) → xor_range n f ≡ xor_range n g
unfolding xor_range
xor_range_ext zero f g h = refl
xor_range_ext (suc n) f g h =
    ap₂ bit_xor (xor_range_ext n f g (λ i p. h i (omega arith))) (h n (omega arith))

pub xor_range-xor :
    (n : ℕ) (f g : ℕ → ℕ)
    → xor_range n (λ i. bit_xor (f i) (g i)) ≡ bit_xor (xor_range n f) (xor_range n g)
unfolding xor_range
xor_range-xor zero f g = refl
xor_range-xor (suc n) f g =
    ap (λ (t : ℕ). bit_xor t (bit_xor (f n) (g n))) (xor_range-xor n f g)
    ∙ xor_swap (xor_range n f) (xor_range n g) (f n) (g n)

pub xor_range-zero : (n : ℕ) (f : ℕ → ℕ) → ((i : ℕ) → i < n → f i ≡ 0) → xor_range n f ≡ 0
unfolding xor_range
xor_range-zero zero f h = refl
xor_range-zero (suc n) f h =
    ap₂ bit_xor (xor_range-zero n f (λ i p. h i (omega arith))) (h n (omega arith))

-- The rows and the columns of a rectangle have the same total.
pub xor_range_swap :
    (n m : ℕ) (f : ℕ → ℕ → ℕ)
    → xor_range n (λ i. xor_range m (f i)) ≡ xor_range m (λ j. xor_range n (λ i. f i j))
unfolding xor_range
xor_range_swap zero m f = sym (xor_range-zero m (λ j. 0) (λ i p. refl))
xor_range_swap (suc n) m f =
    ap (λ (t : ℕ). bit_xor t (xor_range m (f n))) (xor_range_swap n m f)
    ∙ sym (xor_range-xor m (λ j. xor_range n (λ i. f i j)) (f n))

-- Two families that agree but at `k`, where the first is zero.
pub xor_range_hole :
    (n k : ℕ) (f g : ℕ → ℕ)
    → k < n
    → ((i : ℕ) → i < n → i ≢ k → f i ≡ g i)
    → f k ≡ 0
    → bit_xor (xor_range n f) (g k) ≡ xor_range n g
unfolding xor_range
xor_range_hole zero k f g p h e = absurd (omega arith)
xor_range_hole (suc n) k f g p h e = elim (ℕ_discrete k n) [
  | yes q ↦
      rw (← q, e, xor-zero)
        (ap (λ (t : ℕ). bit_xor t (g k))
          (xor_range_ext k f g (λ i r. h i (omega arith) (omega arith))))
  | no q ↦
      xor_assoc (xor_range n f) (f n) (g k)
      ∙ ap (λ (t : ℕ). bit_xor (xor_range n f) t) (xor_comm (f n) (g k))
      ∙ sym (xor_assoc (xor_range n f) (g k) (f n))
      ∙ ap₂ bit_xor (xor_range_hole n k f g (omega arith) (λ i r. h i (omega arith)) e)
          (h n (omega arith) (λ r. q (sym r)))
]

-- In a family that vanishes in total, the others determine each member.
pub xor_range_recover :
    (n k : ℕ) (f g : ℕ → ℕ)
    → k < n
    → ((i : ℕ) → i < n → i ≢ k → f i ≡ g i)
    → f k ≡ 0
    → xor_range n g ≡ 0
    → xor_range n f ≡ g k
xor_range_recover n k f g p h e z = eq_of_xor_zero _ _ (xor_range_hole n k f g p h e ∙ z)
