-- ===== src/Transqueue/Tests.antt =====
-- Runs of the sender and of the receiver.
use zxlib.Prelude.{
  ℕ, zero, suc, ◌+◌, ◌<◌, ◌≤◌, ◌≡◌, refl, ap, ◌∙◌, arith, Bool, true, ◌&&◌, ◌||◌, Option, none,
  some, List, [], ◌∷◌, ◌++◌, ◌==◌, if◌then◌else◌, Any, all_empty,
}
use zxlib.Prelude.Family.{xor_range-zero}
use zxlib.Package.{Package, package_offset_code}
use zxlib.Package.Words.{package_malloc, package_set, zero_task}
use zxlib.UnitCode.Size.{unit_data_count}
use zxlib.UnitCode.Cell.{PackageUnit, store, Axis, along_k, along_i, along_j, cell}
use zxlib.UnitCode.Encode.{IsCodeword}
use zxlib.UnitCode.Repairs.{count_lost, IsReceivedUnit}
use zxlib.Transqueue.Send.{Sender, sender_open, send_data, transqueue_send}
use zxlib.Transqueue.Unit.{IsSender}
use zxlib.Transqueue.Wire.{IsSent}
use zxlib.Transqueue.Encoded.{encoded_with}
use zxlib.Transqueue.Parities.{
  more_data, sender_open-IsSender, transqueue_send-IsSender, transqueue_send_unit,
}
use zxlib.Transqueue.Receive.{Receiver, keep, collect, gather, transqueue_recv, restore}
use zxlib.Transqueue.Restore.{IsDelivered, IsFilled, restore_few}
use zxlib.Transqueue.FirstLost.{transqueue_recv-first_lost}

abbrev blank : Package
blank = record package_malloc { exist = true; words = λ w. 0 }

-- The sender after `n` packets.
unfoldable sends : ℕ → Sender
sends zero = sender_open
sends (suc n) = transqueue_send (sends n) blank

record IsAfter (n : ℕ) (s : Sender) : Type 0 where
  sender : IsSender s
  number : s.number ≡ n
  id : s.id ≡ 0

IsAfter-suc :
    (n : ℕ) (s : Sender) → n < 342 → IsAfter n s → IsAfter (suc n) (transqueue_send s blank)
unfolding send_data
IsAfter-suc n s lt h =
    let e = more_data s blank h.sender (omega (arith, h.number)) in
    record {
      sender = transqueue_send-IsSender s blank h.sender (omega (arith, h.id));
      number = ap (λ (t : Sender). t.number) e ∙ omega (arith, h.number);
      id = ap (λ (t : Sender). t.id) e ∙ h.id;
    }

sends-IsAfter : (n : ℕ) → n ≤ 342 → IsAfter n (sends n)
unfolding sends sender_open
sends-IsAfter zero le = record { sender = sender_open-IsSender; number = refl; id = refl }
sends-IsAfter (suc n) le = IsAfter-suc n (sends n) (omega arith) (sends-IsAfter n (omega arith))

transqueue_send-IsSender_example : IsSender (transqueue_send sender_open blank)
unfolding sender_open
transqueue_send-IsSender_example =
    transqueue_send-IsSender sender_open blank sender_open-IsSender (omega arith)

transqueue_send_unit_example :
    IsCodeword (encoded_with (sends 342) blank)
    × ((w : ℕ)
        → w < package_offset_code
        → (encoded_with (sends 342) blank 6 6 6).words w ≡ blank.words w)
    × ((i j k : ℕ)
        → i < 7
        → j < 7
        → k < 7
        → i + j + k < 18
        → encoded_with (sends 342) blank i j k ≡ (sends 342).u i j k)
    × ((i j k : ℕ)
        → i < 8
        → j < 8
        → k < 8
        → Any
            (IsSent (encoded_with (sends 342) blank) (sends 342).id i j k)
            (transqueue_send (sends 342) blank).wire)
    × ((transqueue_send (sends 342) blank).number ≡ 0)
    × ((transqueue_send (sends 342) blank).id ≡ (sends 342).id + 1)
transqueue_send_unit_example =
    transqueue_send_unit (sends 342) blank (sends-IsAfter 342 (omega arith)).sender
      (sends-IsAfter 342 (omega arith)).number

-- Data packet `n` of unit 0, of task 7.
abbrev numbered_packet : ℕ → Package
numbered_packet n = record blank {
  code = record { id = 0; sign = 0; num = n; i0 = 0; i1 = 0; i2 = n };
  task = record zero_task { id = 7 };
}

abbrev open_receiver : Receiver
open_receiver = record {
  held = none;
  id_new = 0;
  id_old = none;
  number_old = 511;
  u = λ i j k. package_malloc;
  q = [];
}

abbrev two_raws : List Package
two_raws = package_set (numbered_packet 0) ∷ package_set (numbered_packet 1) ∷ []

-- Packet 5 of unit 1 is the first of it to come.
abbrev late : Package
late = record blank { code = record { id = 1; sign = 0; num = 5; i0 = 0; i1 = 0; i2 = 5 } }

transqueue_recv-first_lost_example :
    (t : Receiver) × (rest : List (Option Package)) × (more : List Package) × (transqueue_recv
        open_receiver late []
      ≡ some (t, rest))
    × (t.q ≡ [] ++ more)
    × (Any (λ (q : Package). q.code.num ≡ 0) more → ⊥)
transqueue_recv-first_lost_example =
    transqueue_recv-first_lost open_receiver late [] (omega arith) (omega arith) refl all_empty

-- A unit of zero packets from which four are missing, when packet 5 comes.
abbrev square : (i j k : ℕ) → Bool
square i j k = i == 2 && ((j == 1 || j == 4) && (k == 3 || k == 5))

abbrev zeros : PackageUnit
zeros i j k = blank

abbrev lossy_receiver : Receiver
lossy_receiver = record open_receiver {
  u = λ i j k. if square i j k then package_malloc else blank;
}

zeros-IsCodeword : IsCodeword zeros
zeros-IsCodeword d a b w p q h = xor_range-zero 8 (λ c. (cell zeros d a b c).words w) (all d)
  where
    all : (d : Axis) (c : ℕ) → c < 8 → (cell zeros d a b c).words w ≡ 0
    all along_k c r = refl
    all along_i c r = refl
    all along_j c r = refl

-- What packet 5 leaves of it.
abbrev lossy : PackageUnit
lossy = store lossy_receiver.u 0 0 5 late

gather-lossy : gather lossy_receiver.u late [] ≡ some (lossy, none, [])
unfolding gather keep collect
gather-lossy = refl

lossy-IsReceivedUnit : IsReceivedUnit zeros lossy
unfolding package_malloc
lossy-IsReceivedUnit i j k p q r = record {
  there = λ e w h. ground (arith, e);
  blank = λ e w h. ground (arith, e);
}

lossy-few : count_lost lossy < 8
unfolding package_malloc count_lost
lossy-few = omega arith

restore_few_example :
    (t : Receiver) × (more : List Package) × (restore lossy_receiver 2 late [] ≡ some (t, []))
    × (t.q ≡ [] ++ more)
    × ((num : ℕ)
        → 2 < num
        → num < unit_data_count
        → IsFilled zeros num
        → Any (IsDelivered zeros 1 num) more)
restore_few_example =
    restore_few zeros lossy_receiver 2 late [] zeros-IsCodeword (omega arith) (omega arith)
      gather-lossy lossy-IsReceivedUnit lossy-few
