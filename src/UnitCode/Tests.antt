-- ===== src/UnitCode/Tests.antt =====
-- Runs of the codec on units with a few losses.
use zxlib.Prelude.{
  ℕ, suc, ◌+◌, ◌*◌, ◌<◌, ◌≡◌, ◌≢◌, ◌↔◌, ◌⊎◌, inl, inr, refl, arith, Bool, true, false, not, ◌&&◌,
  ◌||◌, Option, none, some, ltb, ◌==◌, if◌then◌else◌,
}
use zxlib.Prelude.Family.{xor_range-zero}
use zxlib.Package.{Package, package_offset_code}
use zxlib.Package.Words.{package_malloc}
use zxlib.UnitCode.{unit_encode, unit_decode}
use zxlib.UnitCode.Cell.{PackageUnit, Axis, along_k, along_i, along_j, cell}
use zxlib.UnitCode.Encode.{IsCodeword, HasBlankParity, unit_encode-IsCodeword}
use zxlib.UnitCode.Repairs.{count_lost, IsReceivedUnit, IsReceived}
use zxlib.UnitCode.Recovery.{
  IsComplete, unit_decode_total, unit_decode-IsReceivedUnit, unit_decode_few,
  unit_decode-unit_encode,
}

-- A packet whose words are all `x`.
abbrev filled : ℕ → Package
filled x = record package_malloc { exist = true; words = λ w. x }

abbrev is_data : (i j k : ℕ) → Bool
is_data i j k = ltb i 7 && (ltb j 7 && ltb k 7)

-- Data everywhere, blank parity packets.
abbrev message : PackageUnit
message i j k = filled (if is_data i j k then i + 8 * j + 64 * k + 1 else 0)

message-HasBlankParity : HasBlankParity message
message-HasBlankParity i j k w p q r h = ground arith

-- What is received of a unit when the packets that `drop` names do not arrive.
abbrev received : (ℕ → ℕ → ℕ → Bool) → PackageUnit → PackageUnit
received drop v i j k = if drop i j k then package_malloc else record (v i j k) { exist = true }

received-IsReceivedUnit :
    (drop : ℕ → ℕ → ℕ → Bool) (v : PackageUnit) → IsReceivedUnit v (received drop v)
unfolding package_malloc
received-IsReceivedUnit drop v i j k p q r = one (drop i j k) (v i j k)
  where
    one :
        (b : Bool) (p : Package)
        → IsReceived p (if b then package_malloc else record p { exist = true })
    one true p = record { there = λ e. absurd (ground (arith, e)); blank = λ e w h. refl }
    one false p = record { there = λ e w h. refl; blank = λ e. absurd (ground (arith, e)) }

-- Four packets of one plane, which no line along k or j can repair at first.
abbrev square : (i j k : ℕ) → Bool
square i j k = i == 2 && ((j == 1 || j == 4) && (k == 3 || k == 5))

square-few : count_lost (received square (unit_encode message)) < 8
unfolding count_lost package_malloc
square-few = omega arith

unit_decode-unit_encode_example :
    (t : PackageUnit) × (unit_decode (received square (unit_encode message)) ≡ some (0, t))
    × ((i j k w : ℕ)
        → i < 7
        → j < 7
        → k < 7
        → w < package_offset_code
        → (t i j k).words w ≡ (message i j k).words w)
unit_decode-unit_encode_example =
    unit_decode-unit_encode message (received square (unit_encode message)) message-HasBlankParity
      (received-IsReceivedUnit square (unit_encode message)) square-few

unit_decode_few_example :
    (t : PackageUnit) × (unit_decode (received square (unit_encode message)) ≡ some (0, t))
    × IsComplete t
    × ((i j k w : ℕ)
        → i < 8
        → j < 8
        → k < 8
        → w < package_offset_code
        → (t i j k).words w ≡ (unit_encode message i j k).words w)
unit_decode_few_example =
    unit_decode_few (unit_encode message) (received square (unit_encode message))
      (unit_encode-IsCodeword message message-HasBlankParity)
      (received-IsReceivedUnit square (unit_encode message)) square-few

-- The eight corners of a box: every line that misses one of them misses two.
abbrev box : (i j k : ℕ) → Bool
box i j k = (i == 1 || i == 6) && ((j == 0 || j == 3) && (k == 2 || k == 7))

abbrev boxed : PackageUnit
boxed = received box message

test-unit_decode-box : unit_decode boxed ≡ some (24, boxed)
unfolding unit_decode zxlib.UnitCode.decode_loop zxlib.UnitCode.decode_pass
    zxlib.UnitCode.decode_sweep zxlib.Prelude.Loop.for_up zxlib.UnitCode.decode_line
    zxlib.UnitCode.scan zxlib.UnitCode.scan_cell zxlib.UnitCode.marks zxlib.UnitCode.mark_cell
    package_malloc
test-unit_decode-box = refl

unit_decode_total_example :
    (result : ℕ) × (t : PackageUnit) × (unit_decode boxed ≡ some (result, t))
    × ((result ≡ 0) ↔ IsComplete t)
    × ((i j k : ℕ) → (boxed i j k).exist ≡ true → t i j k ≡ boxed i j k)
unit_decode_total_example = unit_decode_total boxed

-- The simplest codeword.
abbrev zeros : PackageUnit
zeros i j k = filled 0

zeros-IsCodeword : IsCodeword zeros
zeros-IsCodeword d a b w p q h = xor_range-zero 8 (λ c. (cell zeros d a b c).words w) (all d)
  where
    all : (d : Axis) (c : ℕ) → c < 8 → (cell zeros d a b c).words w ≡ 0
    all along_k c r = refl
    all along_i c r = refl
    all along_j c r = refl

square-zeros-few : count_lost (received square zeros) < 8
unfolding count_lost package_malloc
square-zeros-few = omega arith

square_zeros :
    (t : PackageUnit) × (unit_decode (received square zeros) ≡ some (0, t))
    × IsComplete t
    × ((i j k w : ℕ)
        → i < 8
        → j < 8
        → k < 8
        → w < package_offset_code
        → (t i j k).words w ≡ (zeros i j k).words w)
square_zeros =
    unit_decode_few zeros (received square zeros) zeros-IsCodeword
      (received-IsReceivedUnit square zeros) square-zeros-few

unit_decode-IsReceivedUnit_example : IsReceivedUnit zeros square_zeros.0
unit_decode-IsReceivedUnit_example =
    unit_decode-IsReceivedUnit zeros (received square zeros) 0 square_zeros.0 zeros-IsCodeword
      (received-IsReceivedUnit square zeros) square_zeros.1

unit_encode-IsCodeword_example : IsCodeword (unit_encode message)
unit_encode-IsCodeword_example = unit_encode-IsCodeword message message-HasBlankParity
