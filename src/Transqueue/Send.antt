-- ===== src/Transqueue/Send.antt =====
-- The sending side: `transqueue_push` and `transqueue_send`. The wire is the list of the word arrays
-- that were handed to `transfer_send`.
use zxlib.Prelude.{
  ℕ, ◌+◌, ◌-◌, ◌*◌, ◌/◌, ◌%◌, ◌^◌, Bool, true, none, some, ◌||◌, List, [], ◌∷◌, ◌++◌, ltb, leb,
  ◌==◌, if◌then◌else◌,
}
use zxlib.Prelude.Loop.{for_up}
use zxlib.Package.{Package}
use zxlib.Package.Words.{
  package_malloc, package_reset, package_set_code, package_set_task, package_set_info,
}
use zxlib.Package.Check.{package_code_sign_data, package_code_sign_code}
use zxlib.UnitCode.{unit_encode, unit_malloc}
use zxlib.UnitCode.Size.{unit_length, unit_data_count}
use zxlib.UnitCode.Cell.{PackageUnit, store}

-- The part of `transqueue` that the sender uses, with the static `id`, a 32-bit integer, and what
-- it has sent. The cells that hold a freed packet keep it here: the sender overwrites them before it
-- encodes again.
pub record Sender : Type 0 where
  pub id : ℕ
  pub number : ℕ
  pub u : PackageUnit
  pub wire : List (ℕ → ℕ)

unfoldable pub transqueue_push : List Package → Package → List Package
transqueue_push q p = q ++ package_set_task (package_set_info p) ∷ []

-- The coordinates of data packet `num` in the unit.
abbrev pub place_i : ℕ → ℕ
place_i num = num / ((unit_length - 1) * (unit_length - 1))

abbrev pub place_j : ℕ → ℕ
place_j num = num / (unit_length - 1) % (unit_length - 1)

abbrev pub place_k : ℕ → ℕ
place_k num = num % (unit_length - 1)

-- The assignment of the `int` to the 64-bit field extends its sign.
abbrev pub sign_extend : ℕ → ℕ
sign_extend id = if ltb id (2 ^ 31) then id else id + (2 ^ 64 - 2 ^ 32)

-- `p->code.id = id` and so on, and `package_set_code`.
unfoldable pub set_place : Package → (id sign num i j k : ℕ) → Package
set_place p id sign num i j k = package_set_code (record p {
  code = record { id = sign_extend id; sign = sign; num = num; i0 = i; i1 = j; i2 = k };
})

abbrev pub is_parity : (i j k : ℕ) → Bool
is_parity i j k = i == unit_length - 1 || j == unit_length - 1 || k == unit_length - 1

-- One round of the triple loop behind `unit_encode`.
unfoldable pub send_parity : (i j k : ℕ) → Sender → Sender
send_parity i j k s =
    if is_parity i j k
    then record {
      id = s.id;
      number = s.number + 1;
      u = store s.u i j k (package_reset (s.u i j k));
      wire =
          s.wire ++ (set_place (s.u i j k) s.id package_code_sign_code s.number i j k).words ∷ [];
    }
    else s

unfoldable pub send_parities : Sender → Sender
send_parities =
    for_up unit_length (λ i. for_up unit_length (λ j. for_up unit_length (λ k. send_parity i j k)))

-- What follows on a unit full of data.
unfoldable pub finish_unit : Sender → Sender
finish_unit s =
    let t = send_parities (record s { u = unit_encode s.u }) in
    record t { number = 0; id = (t.id + 1) % 2 ^ 32 }

-- The data packet is sent and put in its place.
unfoldable pub send_data : Sender → Package → Sender
send_data s p =
    let i = place_i s.number in
    let j = place_j s.number in
    let k = place_k s.number in
    let q = set_place p s.id package_code_sign_data s.number i j k in
    record {
      id = s.id;
      number = s.number + 1;
      u = store s.u i j k q;
      wire = s.wire ++ q.words ∷ [];
    }

-- One round of the loop of `transqueue_send`, with the packet that `queue_get` has returned.
unfoldable pub transqueue_send : Sender → Package → Sender
transqueue_send s p =
    let t = send_data s p in if leb unit_data_count t.number then finish_unit t else t

-- The sender as `transqueue_open` leaves it. A data cell is NULL there until a packet is stored.
unfoldable pub sender_open : Sender
sender_open = record { id = 0; number = 0; u = cells; wire = [] }
  where
    cells : PackageUnit
    cells i j k = elim (unit_malloc true i j k) [ none ↦ package_malloc | some p ↦ p ]
