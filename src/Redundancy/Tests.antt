-- ===== src/Redundancy/Tests.antt =====
-- Runs of the code of eleven and five packets.
use zxlib.Prelude.{
  ℕ, zero, suc, ◌+◌, ◌*◌, ◌<◌, ◌≡◌, ◌≢◌, refl, arith, Bool, true, false, not, ◌&&◌, ◌||◌, Option,
  none, some, List, [], ◌∷◌, ◌==◌, if◌then◌else◌, Any,
}
use zxlib.Prelude.Family.{xor_range}
use zxlib.Package.{Package, PackageCode, package_offset_code}
use zxlib.Package.Words.{package_malloc, package_get_code}
use zxlib.Package.Stack.{package_stack_init}
use zxlib.Redundancy.{Redundancy, redundancy_stack_xor}
use zxlib.Redundancy.Parity.{packets, IsSixteen, redundancy_stack_xor-IsSixteen}
use zxlib.Redundancy.Syndrome.{IsSyndrome, known}
use zxlib.Redundancy.Imple.{Restores}
use zxlib.Redundancy.Ends.{redundancy_imple-Restores}
use zxlib.Redundancy.Encode.{redundancy_encode}
use zxlib.Redundancy.Codes.{IsCodePacket, all_data, redundancy_encode-IsSixteen}
use zxlib.Redundancy.Decode.{redundancy_imple, redundancy_decode}
use zxlib.Redundancy.Receive.{TakesIn, redundancy_decode-TakesIn, redundancy_decode-other_unit}

abbrev numbers : ℕ → Package
numbers j = record package_malloc { exist = true; words = λ w. 3 * j + w }

abbrev sender : Redundancy
sender = record {
  id = 0;
  dn = 10;
  cn = 0;
  dp = numbers;
  cp = λ i. package_malloc;
  mark = λ j. false;
  list = [];
  n = 0;
  i = 0;
  ps = package_stack_init;
}

stack_empty : sender.ps.num ≡ 0
unfolding package_stack_init
stack_empty = refl

redundancy_stack_xor-IsSixteen_example : IsSixteen (packets (redundancy_stack_xor sender))
redundancy_stack_xor-IsSixteen_example = redundancy_stack_xor-IsSixteen sender stack_empty

redundancy_encode-IsSixteen_example :
    (v : ℕ → Package) × IsSixteen v
    × ((j : ℕ) → j < 11 → v j ≡ all_data sender (numbers 10) j)
    × ((m : ℕ)
        → m < 5
        → Any (IsCodePacket 0 m (v (11 + m))) (redundancy_encode sender (numbers 10)).list)
    × ((redundancy_encode sender (numbers 10)).dn ≡ 0)
redundancy_encode-IsSixteen_example =
    redundancy_encode-IsSixteen sender (numbers 10) refl refl (omega arith) stack_empty

-- Packets 2 and 7 do not come.
abbrev sent : ℕ → Package
sent = packets (redundancy_stack_xor sender)

sent-IsSixteen : IsSixteen sent
sent-IsSixteen = redundancy_stack_xor-IsSixteen sender stack_empty

abbrev came : ℕ → Bool
came j = not (j == 2 || j == 7)

abbrev receiver : Redundancy
receiver = record {
  id = (package_get_code (sent 2)).code.id;
  dn = 9;
  cn = 5;
  dp = λ j. package_malloc;
  cp = λ i. record package_malloc { words = λ w. xor_range 16 (known sent came i w) };
  mark = came;
  list = [];
  n = 0;
  i = 0;
  ps = package_stack_init;
}

receiver-IsSyndrome : IsSyndrome sent came receiver.cp
receiver-IsSyndrome i w p q = refl

redundancy_imple-Restores_example :
    (t : Redundancy) × (redundancy_imple receiver ≡ some t) × Restores sent receiver t
redundancy_imple-Restores_example =
    redundancy_imple-Restores sent receiver sent-IsSixteen receiver-IsSyndrome

-- Packet 2 comes late.
abbrev late : Package
late = record (sent 2) { code = record (sent 2).code { i0 = 2 } }

late_id : receiver.id ≡ (package_get_code late).code.id
unfolding package_get_code
late_id = refl

redundancy_decode-TakesIn_example :
    (t : Redundancy) × (redundancy_decode receiver late ≡ some t) × TakesIn sent 2 t
redundancy_decode-TakesIn_example =
    redundancy_decode-TakesIn sent receiver late sent-IsSixteen receiver-IsSyndrome (omega arith)
      refl late_id (λ w h. refl)

-- A packet of unit 0 at a receiver of unit 1.
abbrev stranger : Package
stranger = record package_malloc {
  code = record { id = 0; sign = 0; num = 0; i0 = 4; i1 = 0; i2 = 0 };
}

abbrev other_receiver : Redundancy
other_receiver = record receiver { id = 1 }

stranger_id : 1 ≢ (package_get_code stranger).code.id
unfolding package_get_code package_malloc zxlib.Package.Code.get_code_word zxlib.Prelude.Word.field
stranger_id e = absurd (omega (arith, e))

redundancy_decode-other_unit_example :
    (t : Redundancy) × (redundancy_decode other_receiver stranger ≡ some t)
    × (t.dn ≡ 1)
    × (t.mark 4 ≡ false)
redundancy_decode-other_unit_example =
    redundancy_decode-other_unit other_receiver stranger (omega arith) stranger_id
