-- ===== src/UnitCode/Parity.antt =====
-- The algebra of the encoder: three rounds of parities over a cube of numbers whose far faces
-- are zero make every line vanish.
use zxlib.Prelude.{
  ℕ, ◌<◌, ◌≡◌, ap, ap₂, sym, ◌∙◌, arith, bit_xor, ◌&&◌, ltb, ◌==◌, if◌then◌else◌, dec_lt,
}
use zxlib.Prelude.Family.{xor_range, xor_range_ext, xor_range-zero, xor_range_swap}
use zxlib.Prelude.Xor.{xor_self, xor-zero}

-- A line whose last member is the parity of the line before, where that member was zero.
parity_line :
    (f g : ℕ → ℕ)
    → ((e : ℕ) → e < 8 → g e ≡ (if e == 7 then xor_range 8 f else f e))
    → f 7 ≡ 0
    → xor_range 8 g ≡ 0
unfolding xor_range
parity_line f g h z =
    ap₂ bit_xor (xor_range_ext 7 g f (λ e p. ground (arith, h e))) (h 7 (omega arith) ∙ last)
    ∙ xor_self (xor_range 7 f)
  where
    last : xor_range 8 f ≡ xor_range 7 f
    last = ap (λ (t : ℕ). bit_xor (xor_range 7 f) t) z ∙ xor-zero (xor_range 7 f)

-- A line of exclusive ors vanishes if the lines across it do.
crossed_line :
    (f : ℕ → ℕ → ℕ) (g : ℕ → ℕ)
    → ((e : ℕ) → e < 8 → g e ≡ xor_range 8 (λ c. f c e))
    → ((c : ℕ) → c < 8 → xor_range 8 (f c) ≡ 0)
    → xor_range 8 g ≡ 0
crossed_line f g h z =
    xor_range_ext 8 g (λ e. xor_range 8 (λ c. f c e)) h
    ∙ sym (xor_range_swap 8 8 f)
    ∙ xor_range-zero 8 (λ c. xor_range 8 (f c)) z

module _ (D E1 E2 E3 : ℕ → ℕ → ℕ → ℕ)
    (round1 : (i j k : ℕ)
      → E1 i j k ≡ (if ltb i 7 && (ltb j 7 && k == 7) then xor_range 8 (D i j) else D i j k))
    (round2 : (i j k : ℕ)
      → E2 i j k
        ≡ (if ltb j 7 && (ltb k 8 && i == 7) then xor_range 8 (λ e. E1 e j k) else E1 i j k))
    (round3 : (i j k : ℕ)
      → E3 i j k
        ≡ (if ltb k 8 && (ltb i 8 && j == 7) then xor_range 8 (λ e. E2 i e k) else E2 i j k))
    (far_i : (j k : ℕ) → j < 8 → k < 8 → D 7 j k ≡ 0)
    (far_j : (i k : ℕ) → i < 8 → k < 8 → D i 7 k ≡ 0)
    (far_k : (i j : ℕ) → i < 8 → j < 8 → D i j 7 ≡ 0) where
  along_k1 : (i j : ℕ) → i < 8 → j < 7 → xor_range 8 (E1 i j) ≡ 0
  along_k1 i j p q = elim (dec_lt i 7) [
    | yes r ↦
        parity_line (D i j) (E1 i j) (λ k s. ground (arith, round1 i j k))
          (far_k i j p (omega arith))
    | no r ↦ xor_range-zero 8 (E1 i j) (λ k s. ground (arith, round1 i j k, far_i j k))
  ]

  along_k2 : (i j : ℕ) → i < 8 → j < 8 → xor_range 8 (E2 i j) ≡ 0
  along_k2 i j p q = elim (dec_lt j 7) [
    | yes r ↦ elim (dec_lt i 7) [
      | yes s ↦
          xor_range_ext 8 (E2 i j) (E1 i j) (λ k t. ground (arith, round2 i j k)) ∙ along_k1 i j p r
      | no s ↦
          crossed_line (λ c. E1 c j) (E2 i j) (λ k t. ground (arith, round2 i j k))
            (λ c t. along_k1 c j t r)
    ]
    | no r ↦
        xor_range-zero 8 (E2 i j) (λ k t. ground (arith, round2 i j k, round1 i j k, far_j i k))
  ]

  along_i2 : (j k : ℕ) → j < 8 → k < 8 → xor_range 8 (λ i. E2 i j k) ≡ 0
  along_i2 j k p q = elim (dec_lt j 7) [
    | yes r ↦
        parity_line (λ i. E1 i j k) (λ i. E2 i j k) (λ i s. ground (arith, round2 i j k))
          (ground (arith, round1 7 j k, far_i j k))
    | no r ↦
        xor_range-zero 8 (λ i. E2 i j k)
          (λ i t. ground (arith, round2 i j k, round1 i j k, far_j i k))
  ]

  pub line_k : (i j : ℕ) → i < 8 → j < 8 → xor_range 8 (E3 i j) ≡ 0
  line_k i j p q = elim (dec_lt j 7) [
    | yes r ↦
        xor_range_ext 8 (E3 i j) (E2 i j) (λ k t. ground (arith, round3 i j k)) ∙ along_k2 i j p q
    | no r ↦
        crossed_line (E2 i) (E3 i j) (λ k t. ground (arith, round3 i j k)) (λ c t. along_k2 i c p t)
  ]

  pub line_i : (j k : ℕ) → j < 8 → k < 8 → xor_range 8 (λ i. E3 i j k) ≡ 0
  line_i j k p q = elim (dec_lt j 7) [
    | yes r ↦
        xor_range_ext 8 (λ i. E3 i j k) (λ i. E2 i j k) (λ i t. ground (arith, round3 i j k))
        ∙ along_i2 j k p q
    | no r ↦
        crossed_line (λ c i. E2 i c k) (λ i. E3 i j k) (λ i t. ground (arith, round3 i j k))
          (λ c t. along_i2 c k t q)
  ]

  pub line_j : (k i : ℕ) → k < 8 → i < 8 → xor_range 8 (λ j. E3 i j k) ≡ 0
  line_j k i p q =
      parity_line (λ j. E2 i j k) (λ j. E3 i j k) (λ j s. ground (arith, round3 i j k))
        (ground (arith, round2 i 7 k, round1 i 7 k, far_j i k))
