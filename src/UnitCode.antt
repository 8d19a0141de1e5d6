-- ===== src/UnitCode.antt =====
-- unit.h and unit.c: a cube of packets in which every line of each of the three directions has
-- the exclusive or zero, so that a line repairs the loss of one packet.
pub mod Size
pub mod Cell
pub mod Parity
pub mod Encode
pub mod Search
pub mod Repairs
pub mod Passes
pub mod Lines
pub mod Rounds
pub mod Marking
pub mod Decode
pub mod Recovery
mod Tests
use zxlib.Prelude.{
  ℕ, zero, suc, ◌+◌, Bool, true, false, not, ◌&&◌, ◌||◌, Option, none, some, ltb, ◌==◌,
  if◌then◌else◌,
}
use zxlib.Prelude.Family.{update}
use zxlib.Prelude.Loop.{for_up}
use zxlib.Package.{Package}
use zxlib.Package.Words.{package_reset, package_malloc}
use zxlib.Package.Xor.{package_xor8}
use Cell.{PackageUnit, Axis, along_k, along_i, along_j, cell, put}

-- `package_xor(u[i][j][c], u[i][j][0], …, u[i][j][7])` and its likes for the other directions.
unfoldable pub parity : PackageUnit → Axis → (a b c : ℕ) → Package
parity u d a b c =
    package_xor8 (cell u d a b c) (cell u d a b 0) (cell u d a b 1) (cell u d a b 2)
      (cell u d a b 3) (cell u d a b 4) (cell u d a b 5) (cell u d a b 6) (cell u d a b 7)

pub encode_line : Axis → (a b : ℕ) → PackageUnit → PackageUnit
encode_line d a b u = put u d a b 7 (parity u d a b 7)

-- One double loop of `unit_encode`.
pub encode_lines : Axis → (n m : ℕ) → PackageUnit → PackageUnit
encode_lines d n m = for_up n (λ a. for_up m (λ b. encode_line d a b))

unfoldable pub unit_encode : PackageUnit → PackageUnit
unit_encode u = encode_lines along_j 8 8 (encode_lines along_i 7 8 (encode_lines along_k 7 7 u))

-- `x`, `y` and `z` of `unit_decode`: the planes that hold a lost packet.
pub record Marks : Type 0 where
  pub x : ℕ → Bool
  pub y : ℕ → Bool
  pub z : ℕ → Bool

pub mark_cell : PackageUnit → (i j k : ℕ) → Marks → Marks
mark_cell u i j k m =
    if not (u i j k).exist
    then record { x = update m.x i true; y = update m.y j true; z = update m.z k true }
    else m

pub marks : PackageUnit → Marks
marks u =
    for_up 8 (λ i. for_up 8 (λ j. for_up 8 (λ k. mark_cell u i j k)))
      (record { x = λ i. false; y = λ j. false; z = λ k. false })

-- The marks of the three places of a line: its two coordinates, and the position on it.
abbrev pub mark_a : Marks → Axis → ℕ → Bool
mark_a m along_k = m.x
mark_a m along_i = m.y
mark_a m along_j = m.z

abbrev pub mark_b : Marks → Axis → ℕ → Bool
mark_b m along_k = m.y
mark_b m along_i = m.z
mark_b m along_j = m.x

abbrev pub mark_c : Marks → Axis → ℕ → Bool
mark_c m along_k = m.z
mark_c m along_i = m.x
mark_c m along_j = m.y

-- `num` and `index` of the search of a line, which stops at the second lost packet. `index` has
-- no value in the code before the first.
pub record Scan : Type 0 where
  pub num : ℕ
  pub index : ℕ

pub scan_cell : (ℕ → Bool) → (ℕ → Bool) → ℕ → Scan → Scan
scan_cell mark present c s =
    if ltb 1 s.num
    then s
    else if mark c && not (present c)
    then record { num = s.num + 1; index = c }
    else s

pub scan : (ℕ → Bool) → (ℕ → Bool) → ℕ → Scan
scan mark present n = for_up n (scan_cell mark present) (record { num = 0; index = 0 })

-- The variables of the do loop of `unit_decode`.
pub record Sweep : Type 0 where
  pub cells : PackageUnit
  pub check : Bool
  pub result : ℕ

pub repair : PackageUnit → Axis → (a b c : ℕ) → PackageUnit
repair u d a b c = put u d a b c (record (parity u d a b c) { exist = true })

pub decode_line : Marks → Axis → (a b : ℕ) → Sweep → Sweep
decode_line m d a b s =
    let found = scan (mark_c m d) (λ c. (cell s.cells d a b c).exist) 8 in
    if found.num == 1
    then record {
      cells = repair s.cells d a b found.index;
      check = true;
      result = s.result + found.num;
    }
    else record s { result = s.result + found.num }

-- One double loop of `unit_decode`.
pub decode_sweep : Marks → Axis → Sweep → Sweep
decode_sweep m d = for_up 8 λ a s.
    if mark_a m d a
    then for_up 8 (λ b t. if mark_b m d b then decode_line m d a b t else t) s
    else s

-- One round of the do loop.
pub decode_pass : Marks → PackageUnit → Sweep
decode_pass m u = decode_sweep m along_j (
    decode_sweep m along_i
      (decode_sweep m along_k (record { cells = u; check = false; result = 0 })))

pub decode_loop : ℕ → Marks → PackageUnit → Option (ℕ × PackageUnit)
decode_loop zero m u = none
decode_loop (suc fuel) m u =
    let s = decode_pass m u in
    elim s.check [ true ↦ decode_loop fuel m s.cells | false ↦ some (s.result, s.cells) ]

-- The result and the unit. Every round but the last repairs a packet, so 513 rounds are enough.
unfoldable pub unit_decode : PackageUnit → Option (ℕ × PackageUnit)
unit_decode u = decode_loop 513 (marks u) u

-- On the sending side only the parity packets belong to the unit: a data cell is NULL until a
-- packet is put there, and `none` stands for that.
unfoldable pub unit_malloc : Bool → (i j k : ℕ) → Option Package
unit_malloc is_send i j k =
    if is_send
    then (if i == 7 || j == 7 || k == 7 then some package_malloc else none)
    else some package_malloc

unfoldable pub unit_reset : PackageUnit → PackageUnit
unit_reset u i j k = package_reset (u i j k)
