-- ===== src/UnitCode/Recovery.antt =====
-- What the receiver of a unit gets: `unit_decode` after losses on what `unit_encode` has sent.
use zxlib.Prelude.{
  ℕ, ◌<◌, ◌≤◌, ◌≡◌, ◌≢◌, ◌↔◌, sym, subst, ◌∙◌, ap, arith, true, false, some, Bool-cases, inl, inr,
  none,
}
use zxlib.Prelude.Loop.{sum_range, two-le-sum_range}
use zxlib.Package.{Package, package_offset_code}
use zxlib.UnitCode.{unit_encode, unit_decode}
use zxlib.UnitCode.Cell.{PackageUnit, Axis, along_k, along_i, along_j}
use zxlib.UnitCode.Encode.{IsCodeword, HasBlankParity, unit_encode-IsCodeword, unit_encode_frame}
use zxlib.UnitCode.Repairs.{
  count_lost, lost, Repairs-count_lost, IsLost, IsReceivedUnit, Repairs-IsReceived, Repairs-keeps,
}
use zxlib.UnitCode.Passes.{IsNotSingle, IsFull}
use zxlib.UnitCode.Decode.{IsDecoded, decode-IsDecoded}

abbrev pub IsComplete : PackageUnit → Type 0
IsComplete u = (i j k : ℕ) → i < 8 → j < 8 → k < 8 → (u i j k).exist ≡ true

IsFull-axis :
    (t : PackageUnit) → IsComplete t → (d : Axis) (a b : ℕ) → a < 8 → b < 8 → IsFull t d a b
IsFull-axis t h along_k a b p q c r = h a b c p q r
IsFull-axis t h along_i a b p q c r = h c a b r p q
IsFull-axis t h along_j a b p q c r = h b c a q r p

-- The equation of a run determines its outcome.
run-IsDecoded :
    (u : PackageUnit) (result : ℕ) (t : PackageUnit)
    → unit_decode u ≡ some (result, t)
    → IsDecoded u result t
run-IsDecoded u result t e =
    let (r, s, runs, done) = decode-IsDecoded u in
    let same : some (r, s) ≡ some (result, t) = sym runs ∙ e in
    let pair : (r, s) ≡ (result, t) = ap (λ o. elim o [ none ↦ (r, s) | some p ↦ p ]) same in
    subst (λ (p : ℕ × PackageUnit). IsDecoded u p.0 p.1) pair done

-- `unit_decode` always returns. What it returns is zero exactly when no packet of the unit it
-- leaves is lost, and it leaves every packet that was there as it was.
pub unit_decode_total :
    (u : PackageUnit)
    → (result : ℕ) × (t : PackageUnit) × (unit_decode u ≡ some (result, t))
      × ((result ≡ 0) ↔ IsComplete t)
      × ((i j k : ℕ) → (u i j k).exist ≡ true → t i j k ≡ u i j k)
unit_decode_total u =
    let (result, t, runs, done) = decode-IsDecoded u in
    (
      result,
      t,
      runs,
      (λ z i j k p q r. done.zero z along_k i j p q k r, λ h. done.full (IsFull-axis t h)),
      λ i j k e. Repairs-keeps i j k done.reach e,
    )

-- When `unit_decode` returns, no line of any direction misses exactly one packet: what is lost
-- then is beyond every single-line repair.
pub unit_decode_stuck :
    (u : PackageUnit) (result : ℕ) (t : PackageUnit)
    → unit_decode u ≡ some (result, t)
    → (d : Axis) (a b c : ℕ) → a < 8
    → b < 8
    → c < 8
    → IsLost t d a b c
    → (e : ℕ) × (e < 8) × (e ≢ c) × IsLost t d a b e
unit_decode_stuck u result t runs d a b c p q r l =
    (run-IsDecoded u result t runs).single d a b p q c r l

-- Decoding what was received of a codeword puts back only packets that were sent: in the unit it
-- leaves, each packet that is there has the coded words of the one sent, and the others are blank.
pub unit_decode-IsReceivedUnit :
    (v u : PackageUnit) (result : ℕ) (t : PackageUnit)
    → IsCodeword v
    → IsReceivedUnit v u
    → unit_decode u ≡ some (result, t)
    → IsReceivedUnit v t
unit_decode-IsReceivedUnit v u result t code got runs =
    Repairs-IsReceived v code (run-IsDecoded u result t runs).reach got

module _ (t : PackageUnit)
    (stuck : (d : Axis) (a b : ℕ) → a < 8 → b < 8 → IsNotSingle t d a b) where
  lost_one : (i j k : ℕ) → (t i j k).exist ≡ false → 1 ≤ lost (t i j k)
  lost_one i j k l = ground arith

  row_two :
      (i j k : ℕ)
      → i < 8
      → j < 8
      → k < 8
      → (t i j k).exist ≡ false
      → 2 ≤ sum_range 8 (λ k. lost (t i j k))
  row_two i j k p q r l =
      let (e, s, ne, m) = stuck along_k i j p q k r l in
      two-le-sum_range 8 e k 1 (λ k. lost (t i j k)) s r ne (lost_one i j e m) (lost_one i j k l)

  plane_four :
      (i j k : ℕ)
      → i < 8
      → j < 8
      → k < 8
      → (t i j k).exist ≡ false
      → 4 ≤ sum_range 8 (λ j. sum_range 8 (λ k. lost (t i j k)))
  plane_four i j k p q r l =
      let (e, s, ne, m) = stuck along_j k i r p j q l in
      two-le-sum_range 8 e j 2 (λ j. sum_range 8 (λ k. lost (t i j k))) s q ne
        (row_two i e k p s r m) (row_two i j k p q r l)

  unit_eight : (i j k : ℕ) → i < 8 → j < 8 → k < 8 → (t i j k).exist ≡ false → 8 ≤ count_lost t
  unfolding count_lost
  unit_eight i j k p q r l =
      let (e, s, ne, m) = stuck along_i j k q r i p l in
      two-le-sum_range 8 e i 4 (λ i. sum_range 8 (λ j. sum_range 8 (λ k. lost (t i j k)))) s p ne
        (plane_four e j k s q r m) (plane_four i j k p q r l)

  few-IsComplete : count_lost t < 8 → IsComplete t
  few-IsComplete few i j k p q r = elim (Bool-cases (t i j k).exist) [
    | inl e ↦ e
    | inr l ↦ absurd (omega (arith, unit_eight i j k p q r l))
  ]

-- Any loss of fewer than eight packets of a codeword, wherever they stand, is repaired: the
-- result is zero and every packet has the coded words that were sent.
pub unit_decode_few :
    (v u : PackageUnit)
    → IsCodeword v
    → IsReceivedUnit v u
    → count_lost u < 8
    → (t : PackageUnit) × (unit_decode u ≡ some (0, t))
      × IsComplete t
      × ((i j k w : ℕ)
          → i < 8
          → j < 8
          → k < 8
          → w < package_offset_code
          → (t i j k).words w ≡ (v i j k).words w)
unit_decode_few v u code got few =
    let (result, t, runs, done) = decode-IsDecoded u in
    let all : IsComplete t =
      few-IsComplete t done.single (omega (arith, Repairs-count_lost done.reach)) in
    let z : result ≡ 0 = done.full (IsFull-axis t all) in
    (
      t,
      runs ∙ ap (λ (r : ℕ). some (r, t)) z,
      all,
      λ i j k w p q r lt.
          (Repairs-IsReceived v code done.reach got i j k p q r).there (all i j k p q r) w lt,
    )

-- The round trip: of a unit with blank parity packets, encoded and sent, any fewer than eight
-- packets may be lost, and the receiver's `unit_decode` returns zero and restores the coded words of
-- all data packets.
pub unit_decode-unit_encode :
    (u r : PackageUnit)
    → HasBlankParity u
    → IsReceivedUnit (unit_encode u) r
    → count_lost r < 8
    → (t : PackageUnit) × (unit_decode r ≡ some (0, t))
      × ((i j k w : ℕ)
          → i < 7
          → j < 7
          → k < 7
          → w < package_offset_code
          → (t i j k).words w ≡ (u i j k).words w)
unit_decode-unit_encode u r blank got few =
    let (t, runs, all, same) =
      unit_decode_few (unit_encode u) r (unit_encode-IsCodeword u blank) got few in
    (
      t,
      runs,
      λ i j k w p q s lt.
          same i j k w (omega arith) (omega arith) (omega arith) lt
          ∙ ap (λ (x : Package). x.words w) (unit_encode_frame u i j k p q s),
    )
