-- ===== src/Redundancy/Lost.antt =====
-- One round of `redundancy_imple`: the packet that it restores is the one that was sent.
use zxlib.Prelude.{
  ℕ, ◌<◌, ◌≡◌, ◌≢◌, refl, ap, ap₂, sym, ◌∙◌, arith, Bool, true, false, bit_xor, if◌then◌else◌,
  ℕ_discrete,
}
use zxlib.Prelude.Family.{xor_range, xor_range-xor, xor_range-zero, xor_range_hole}
use zxlib.Prelude.Xor.{xor-zero, zero-xor, xor_self}
use zxlib.Prelude.Loop.{sum_range, two-le-sum_range}
use zxlib.Package.{Package, package_offset_code}
use zxlib.Redundancy.Table.{redundancy_table}
use zxlib.Redundancy.Parity.{IsSixteen}
use zxlib.Redundancy.Syndrome.{unknown, IsSyndrome, unknown_lem}
use zxlib.Redundancy.Decode.{missing}

-- A family with one member that is not zero.
xor_range_single :
    (n k : ℕ) (f : ℕ → ℕ) → k < n → ((j : ℕ) → j < n → j ≢ k → f j ≡ 0) → xor_range n f ≡ f k
xor_range_single n k f lt h =
    sym (xor_range_hole n k (λ _. 0) f lt (λ j p ne. sym (h j p ne)) refl)
    ∙ ap (λ (t : ℕ). bit_xor t (f k)) (xor_range-zero n (λ _. 0) (λ _ _. refl))
    ∙ zero-xor (f k)

-- The code packet of a column with one missing packet is that packet.
module _ (v : ℕ → Package) (mark : ℕ → Bool) (cp : ℕ → Package) (code : IsSixteen v)
    (h : IsSyndrome v mark cp) where
  column_lem :
      (i w : ℕ)
      → i < 5
      → w < package_offset_code
      → (cp i).words w ≡ xor_range 16 (unknown v mark i w)
  column_lem i w p q = h i w p q ∙ unknown_lem v mark i w code p q

  only_one :
      (i k j : ℕ)
      → sum_range 16 (missing mark i) ≡ 1
      → k < 16
      → j < 16
      → j ≢ k
      → missing mark i k ≡ 1
      → missing mark i j ≡ 0
  only_one i k j one p q ne e = elim (ℕ_discrete (missing mark i j) 0) [
    | yes z ↦ z
    | no nz ↦ absurd (
        omega (
          arith,
          two-le-sum_range 16 j k 1 (missing mark i) q p ne (omega arith) (omega (arith, e)),
        ))
  ]

  pub one_missing :
      (i k w : ℕ)
      → i < 5
      → k < 16
      → w < package_offset_code
      → sum_range 16 (missing mark i) ≡ 1
      → mark k ≡ false
      → redundancy_table k i ≡ true
      → (cp i).words w ≡ (v k).words w
  one_missing i k w p q r one m t =
      column_lem i w p r
      ∙ xor_range_single 16 k (unknown v mark i w) q
          (λ j a ne. let z = only_one i k j one q a ne (ground (arith, m, t)) in ground (arith, z))
      ∙ ground (arith, m, t)

  -- Where exactly one missing packet tells two columns apart, their sum is that packet.
  pub one_different :
      (i j k w : ℕ)
      → i < 5
      → j < 5
      → k < 16
      → w < package_offset_code
      → mark k ≡ false
      → redundancy_table k i ≢ redundancy_table k j
      → ((l : ℕ) → l < 16 → l ≢ k → mark l ≡ false → redundancy_table l i ≡ redundancy_table l j)
      → bit_xor ((cp i).words w) ((cp j).words w) ≡ (v k).words w
  one_different i j k w p q r s m ne same =
      ap₂ bit_xor (column_lem i w p s) (column_lem j w q s)
      ∙ sym (xor_range-xor 16 (unknown v mark i w) (unknown v mark j w))
      ∙ xor_range_single 16 k (λ l. bit_xor (unknown v mark i w l) (unknown v mark j w l)) r
          (λ l a b.
            equal (mark l) (redundancy_table l i) (redundancy_table l j) (λ f. same l a b f) l)
      ∙ unequal (mark k) (redundancy_table k i) (redundancy_table k j) m ne
    where
      equal :
          (m s t : Bool)
          → (m ≡ false → s ≡ t)
          → (l : ℕ)
          → bit_xor
              (if m then 0 else if s then (v l).words w else 0)
              (if m then 0 else if t then (v l).words w else 0)
            ≡ 0
      equal true s t e l = xor-zero 0
      equal false s t e l = rw (e refl) (xor_self _)

      unequal :
          (m s t : Bool)
          → m ≡ false
          → s ≢ t
          → bit_xor
              (if m then 0 else if s then (v k).words w else 0)
              (if m then 0 else if t then (v k).words w else 0)
            ≡ (v k).words w
      unequal true s t e ne = absurd (ground (arith, e))
      unequal false true true e ne = absurd (ne refl)
      unequal false true false e ne = xor-zero _
      unequal false false true e ne = zero-xor _
      unequal false false false e ne = absurd (ne refl)
