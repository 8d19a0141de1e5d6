-- ===== src/UnitCode/Encode.antt =====
-- What `unit_encode` makes of a unit: each line of each direction has the exclusive or zero.
use zxlib.Prelude.{
  ℕ, zero, suc, ◌<◌, ◌≡◌, ◌⊎◌, inl, inr, refl, ◌∙◌, arith, ◌&&◌, ltb, ◌==◌, if◌then◌else◌,
}
use zxlib.Prelude.Loop.{for_up}
use zxlib.Prelude.Family.{xor_range}
use zxlib.Package.{package_offset_code}
use zxlib.Package.Xor.{package_xor8_word}
use zxlib.UnitCode.{parity, encode_line, encode_lines, unit_encode}
use zxlib.UnitCode.Cell.{PackageUnit, Axis, along_k, along_i, along_j, cell, cell-put}
use zxlib.UnitCode.Parity

pub parity_ext :
    (d : Axis) (s u : PackageUnit) (a b e : ℕ)
    → ((c : ℕ) → cell s d a b c ≡ cell u d a b c)
    → parity s d a b e ≡ parity u d a b e
unfolding parity
parity_ext d s u a b e h = cc (h e, h 0, h 1, h 2, h 3, h 4, h 5, h 6, h 7)

cell-encode_line :
    (d : Axis) (r m : ℕ) (s : PackageUnit) (a b c : ℕ)
    → cell (encode_line d r m s) d a b c
      ≡ (if a == r && (b == m && c == 7) then parity s d r m 7 else cell s d a b c)
unfolding encode_line
cell-encode_line d r m s a b c = cell-put s r m 7 (parity s d r m 7) d a b c

-- The first `m` lines of row `r` have their last cell replaced by the parity.
abbrev IsRowDone : Axis → (r m : ℕ) → PackageUnit → PackageUnit → Type 0
IsRowDone d r m u s =
    (a b c : ℕ)
    → cell s d a b c ≡ (if a == r && (ltb b m && c == 7) then parity u d a b 7 else cell u d a b c)

IsRowDone-encode_line :
    (d : Axis) (r m : ℕ) (u s : PackageUnit)
    → IsRowDone d r m u s
    → IsRowDone d r (suc m) u (encode_line d r m s)
IsRowDone-encode_line d r m u s h a b c =
    let keep : (e : ℕ) → cell s d r m e ≡ cell u d r m e = λ e. ground (arith, h r m e) in
    ground (arith, cell-encode_line d r m s a b c, h a b c, parity_ext d s u r m 7 keep)

-- The inner loop.
encode_row-IsRowDone :
    (d : Axis) (r m : ℕ) (u : PackageUnit) → IsRowDone d r m u (for_up m (λ b. encode_line d r b) u)
unfolding for_up
encode_row-IsRowDone d r zero u = λ a b c. ground arith
encode_row-IsRowDone d r (suc m) u = IsRowDone-encode_line d r m u _ (encode_row-IsRowDone d r m u)

-- The first `n` rows are done, each to its line `m`.
abbrev AreRowsDone : Axis → (n m : ℕ) → PackageUnit → PackageUnit → Type 0
AreRowsDone d n m u s =
    (a b c : ℕ)
    → cell s d a b c ≡ (if ltb a n && (ltb b m && c == 7) then parity u d a b 7 else cell u d a b c)

AreRowsDone-suc :
    (d : Axis) (n m : ℕ) (u s t : PackageUnit)
    → AreRowsDone d n m u s
    → IsRowDone d n m s t
    → AreRowsDone d (suc n) m u t
AreRowsDone-suc d n m u s t h k a b c =
    let keep : (e : ℕ) → cell s d n b e ≡ cell u d n b e = λ e. ground (arith, h n b e) in
    ground (arith, k a b c, h a b c, parity_ext d s u n b 7 keep)

-- The double loop.
encode_lines-AreRowsDone :
    (d : Axis) (n m : ℕ) (u : PackageUnit) → AreRowsDone d n m u (encode_lines d n m u)
unfolding encode_lines for_up
encode_lines-AreRowsDone d zero m u = λ a b c. ground arith
encode_lines-AreRowsDone d (suc n) m u =
    AreRowsDone-suc d n m u (encode_lines d n m u) _ (encode_lines-AreRowsDone d n m u)
      (encode_row-IsRowDone d n m (encode_lines d n m u))

-- Every line has the exclusive or zero, in each word before the code word.
abbrev pub IsCodeword : PackageUnit → Type 0
IsCodeword u =
    (d : Axis) (a b w : ℕ)
    → a < 8
    → b < 8
    → w < package_offset_code
    → xor_range 8 (λ c. (cell u d a b c).words w) ≡ 0

-- The parity cells, at index 7 of some direction, are as `package_malloc` and `package_reset`
-- leave them.
abbrev pub HasBlankParity : PackageUnit → Type 0
HasBlankParity u =
    (i j k w : ℕ) → i < 8 → j < 8 → k < 8 → ((i ≡ 7) ⊎ (j ≡ 7)) ⊎ (k ≡ 7) → (u i j k).words w ≡ 0

pub parity_word :
    (u : PackageUnit) (d : Axis) (a b c w : ℕ)
    → w < package_offset_code
    → (parity u d a b c).words w ≡ xor_range 8 (λ e. (cell u d a b e).words w)
unfolding parity
parity_word u d a b c w h = package_xor8_word (cell u d a b c) (cell u d a b) w h

encode_lines_word :
    (d : Axis) (n m : ℕ) (u : PackageUnit) (a b c w : ℕ)
    → w < package_offset_code
    → (cell (encode_lines d n m u) d a b c).words w ≡ (
        if ltb a n && (ltb b m && c == 7)
        then xor_range 8 (λ e. (cell u d a b e).words w)
        else (cell u d a b c).words w)
encode_lines_word d n m u a b c w h =
    ground (arith, encode_lines-AreRowsDone d n m u a b c, parity_word u d a b 7 w h)

-- `unit_encode` makes a codeword of any unit whose parity cells are blank: afterwards each of the
-- lines of eight packets, in all three directions, has the exclusive or zero in every coded word.
pub unit_encode-IsCodeword : (u : PackageUnit) → HasBlankParity u → IsCodeword (unit_encode u)
unfolding unit_encode
unit_encode-IsCodeword u blank d a b w p q h = lines d
  where
    u1 : PackageUnit
    u1 = encode_lines along_k 7 7 u

    u2 : PackageUnit
    u2 = encode_lines along_i 7 8 u1

    far_i : (j k : ℕ) → j < 8 → k < 8 → (u 7 j k).words w ≡ 0
    far_i j k r s = blank 7 j k w (omega arith) r s (inl (inl refl))

    far_j : (i k : ℕ) → i < 8 → k < 8 → (u i 7 k).words w ≡ 0
    far_j i k r s = blank i 7 k w r (omega arith) s (inl (inr refl))

    far_k : (i j : ℕ) → i < 8 → j < 8 → (u i j 7).words w ≡ 0
    far_k i j r s = blank i j 7 w r s (omega arith) (inr refl)

    round1 :
        (i j k : ℕ)
        → (u1 i j k).words w ≡ (
            if ltb i 7 && (ltb j 7 && k == 7)
            then xor_range 8 (λ e. (u i j e).words w)
            else (u i j k).words w)
    round1 i j k = encode_lines_word along_k 7 7 u i j k w h

    round2 :
        (i j k : ℕ)
        → (u2 i j k).words w ≡ (
            if ltb j 7 && (ltb k 8 && i == 7)
            then xor_range 8 (λ e. (u1 e j k).words w)
            else (u1 i j k).words w)
    round2 i j k = encode_lines_word along_i 7 8 u1 j k i w h

    round3 :
        (i j k : ℕ)
        → (encode_lines along_j 8 8 u2 i j k).words w ≡ (
            if ltb k 8 && (ltb i 8 && j == 7)
            then xor_range 8 (λ e. (u2 i e k).words w)
            else (u2 i j k).words w)
    round3 i j k = encode_lines_word along_j 8 8 u2 k i j w h

    lines : (d : Axis) → xor_range 8 (λ c. (cell (encode_lines along_j 8 8 u2) d a b c).words w) ≡ 0
    lines along_k =
        Parity.line_k (λ i j k. (u i j k).words w) (λ i j k. (u1 i j k).words w)
          (λ i j k. (u2 i j k).words w) (λ i j k. (encode_lines along_j 8 8 u2 i j k).words w)
          round1 round2 round3 far_i far_j far_k a b p q
    lines along_i =
        Parity.line_i (λ i j k. (u i j k).words w) (λ i j k. (u1 i j k).words w)
          (λ i j k. (u2 i j k).words w) (λ i j k. (encode_lines along_j 8 8 u2 i j k).words w)
          round1 round2 round3 far_i far_j far_k a b p q
    lines along_j =
        Parity.line_j (λ i j k. (u i j k).words w) (λ i j k. (u1 i j k).words w)
          (λ i j k. (u2 i j k).words w) (λ i j k. (encode_lines along_j 8 8 u2 i j k).words w)
          round1 round2 round3 far_i far_j far_k a b p q

encode_lines_keep :
    (d : Axis) (n m : ℕ) (u : PackageUnit) (a b c : ℕ)
    → c < 7
    → cell (encode_lines d n m u) d a b c ≡ cell u d a b c
encode_lines_keep d n m u a b c h = ground (arith, encode_lines-AreRowsDone d n m u a b c)

-- `unit_encode` leaves the data packets alone.
pub unit_encode_frame :
    (u : PackageUnit) (i j k : ℕ) → i < 7 → j < 7 → k < 7 → unit_encode u i j k ≡ u i j k
unfolding unit_encode
unit_encode_frame u i j k p q r =
    encode_lines_keep along_j 8 8 (encode_lines along_i 7 8 (encode_lines along_k 7 7 u)) k i j q
    ∙ encode_lines_keep along_i 7 8 (encode_lines along_k 7 7 u) j k i p
    ∙ encode_lines_keep along_k 7 7 u i j k r
