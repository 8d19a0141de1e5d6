-- ===== src/Transqueue/Receive.antt =====
-- The receiving side: `transqueue_recv`. What arrives in `fq` is a list: `some p` is a packet, with
-- the words that `transqueue_fast` has received, and `none` a second without one.
use zxlib.Prelude.{
  ◌%◌, ◌^◌, ltb, ℕ, zero, suc, ◌+◌, ◌-◌, Bool, not, ◌&&◌, ◌||◌, Option, none, some, List, [], ◌∷◌,
  ◌++◌, leb, ◌==◌, if◌then◌else◌,
}
use zxlib.Prelude.Loop.{for_up}
use zxlib.Package.{Package}
use zxlib.Package.Words.{package_get}
use zxlib.Package.Check.{package_code_sign_data}
use zxlib.UnitCode.{unit_decode, unit_reset}
use zxlib.UnitCode.Size.{unit_length, unit_data_count, unit_total_count}
use zxlib.UnitCode.Cell.{PackageUnit, store}
use zxlib.Transqueue.Send.{sign_extend, place_i, place_j, place_k}

-- The local variables of the loop and the queue `q` that it fills. The `int` `id_new` is a 64-bit
-- pattern, as it is compared with `code.id`; `id_old` is `none` where it is negative; `held` is the
-- packet that is kept for the next round.
pub record Receiver : Type 0 where
  pub held : Option Package
  pub id_new : ℕ
  pub id_old : Option ℕ
  pub number_old : ℕ
  pub u : PackageUnit
  pub q : List Package

unfoldable pub receiver_open : PackageUnit → Receiver
receiver_open u = record {
  held = none;
  id_new = 0;
  id_old = none;
  number_old = unit_total_count - 1;
  u = u;
  q = [];
}

-- The value of an `int` that a 64-bit number is assigned to.
abbrev pub as_int : ℕ → ℕ
as_int id = sign_extend (id % 2 ^ 32)

-- The `int` as `id_old`, which is only read where it is not negative.
abbrev pub non_negative : ℕ → Option ℕ
non_negative id = if ltb id (2 ^ 31) then some id else none

-- Whether the coordinates are those of a cell.
abbrev pub has_cell : Package → Bool
has_cell p = ltb p.code.i0 unit_length && ltb p.code.i1 unit_length && ltb p.code.i2 unit_length

-- `memcpy(tq->u[i0][i1][i2], p, sizeof(package))`. The code does not test the coordinates: `none` is
-- a write outside the unit.
unfoldable pub keep : PackageUnit → Package → Option PackageUnit
keep u p = if has_cell p then some (store u p.code.i0 p.code.i1 p.code.i2 p) else none

-- The packet that the expected one is followed by, or the first of the next unit, or any parity
-- packet of this one.
abbrev pub is_next : (id_new id_old number_new number_old : ℕ) → Bool
is_next id_new id_old number_new number_old =
    id_new == id_old && (number_new == number_old + 1 || leb (unit_data_count - 1) number_old)
    || id_new == (id_old + 1) % 2 ^ 64 && number_new == 0 && number_old == unit_total_count - 1

-- What a stretch of the round leaves: the unit, the packet that is held and what is still in `fq`.
abbrev pub Collected : Type 0
Collected = PackageUnit × Option Package × List (Option Package)

-- The inner loop: the rest of the unit `id_new` is collected, until its last packet, a packet of
-- another unit, which is held, or a second without one. `none` is a write outside the unit.
unfoldable pub collect : ℕ → PackageUnit → List (Option Package) → Option Collected
collect id_new u [] = some (u, none, [])
collect id_new u (none ∷ fq) = some (u, none, fq)
collect id_new u (some raw ∷ fq) =
    let p = package_get raw in
    if not (p.code.id == id_new) then some (u, some p, fq) else elim (keep u p) [
      | none ↦ none
      | some w ↦
          let rest = collect id_new w fq in
          if p.code.num == unit_total_count - 1 then some (w, none, fq) else rest
    ]

-- The packet of the round is stored, and the others of its unit after it.
unfoldable pub gather : PackageUnit → Package → List (Option Package) → Option Collected
gather u p fq = elim (keep u p) [ none ↦ none | some w ↦ collect (as_int p.code.id) w fq ]

-- The copy of a packet of the unit that is handed over, with the code that the repair has not
-- restored.
abbrev pub numbered : (id num : ℕ) → Package → Package
numbered id num p = record p {
  code = record p.code { id = id; num = num; i0 = place_i num; i1 = place_j num; i2 = place_k num };
}

-- One round of the loop that hands over the packets after `unit_decode`. A lost packet is only
-- reported.
unfoldable pub deliver_one :
    (id_new num : ℕ) → PackageUnit × List Package → PackageUnit × List Package
deliver_one id_new num (u, q) =
    let p = package_get (u (place_i num) (place_j num) (place_k num)) in
    if (u (place_i num) (place_j num) (place_k num)).exist
    then (
      store u (place_i num) (place_j num) (place_k num) p,
      if p.task.empty == 0 then q ++ numbered id_new num p ∷ [] else q,
    )
    else (u, q)

-- `for(num = number_old + 1; num < UNIT_DATA_COUNT; num++)`
unfoldable pub deliver :
    (id_new number_old : ℕ) → PackageUnit × List Package → PackageUnit × List Package
deliver id_new number_old =
    for_up (unit_data_count - (number_old + 1)) (λ n. deliver_one id_new (number_old + 1 + n))

-- The packet comes when it should.
unfoldable pub accept : Receiver → Package → Option Receiver
accept s p =
    elim (if p.task.empty == 1 || p.code.sign == package_code_sign_data
      then keep s.u p
      else some s.u) [
        | none ↦ none
        | some u ↦ some (record {
          held = none;
          id_new = as_int p.code.id;
          id_old = non_negative (as_int p.code.id);
          number_old = p.code.num;
          u = u;
          q =
              if not (p.task.empty == 1) && p.code.sign == package_code_sign_data
              then s.q ++ p ∷ []
              else s.q;
        })
      ]

-- The end of a round before which packets were missing.
abbrev pub recovered : (held : Option Package) → Package → PackageUnit → List Package → Receiver
recovered held p u q = record {
  held = held;
  id_new = as_int p.code.id;
  id_old = none;
  number_old = unit_total_count - 1;
  u = u;
  q = q;
}

-- Packets are missing before it. `none` as the result: a write outside the unit, or `unit_decode`
-- has not returned.
unfoldable pub restore :
    Receiver
    → (number_old : ℕ) → Package
    → List (Option Package)
    → Option (Receiver × List (Option Package))
restore s number_old p fq =
    if p.code.num == 0
    then elim (keep s.u p) [ none ↦ none | some u ↦ some (recovered none p u (s.q ++ p ∷ []), fq) ]
    else elim (gather s.u p fq) [
      | none ↦ none
      | some (u, held, rest) ↦ elim (unit_decode u) [
        | none ↦ none
        | some (result, t) ↦
            let (w, q) = deliver (as_int p.code.id) number_old (t, s.q) in
            some (recovered held p w q, rest)
      ]
    ]

-- One round of the loop of `transqueue_recv` with the packet `p`.
unfoldable pub transqueue_recv :
    Receiver → Package → List (Option Package) → Option (Receiver × List (Option Package))
transqueue_recv s p fq =
    let t = if p.code.id == s.id_new then s else record s { u = unit_reset s.u } in
    let id_old : ℕ = elim s.id_old [ none ↦ s.id_new | some id ↦ id ] in
    if is_next (as_int p.code.id) id_old p.code.num s.number_old
    then elim (accept t p) [ none ↦ none | some next ↦ some (next, fq) ]
    else restore t (if as_int p.code.id == id_old then s.number_old else 0) p fq

-- What a round starts with: the held packet or the next arrival.
unfoldable pub arrival :
    Option Package → List (Option Package) → Option (Option Package × List (Option Package))
arrival (some p) fq = some (some p, fq)
arrival none [] = none
arrival none (none ∷ fq) = some (none, fq)
arrival none (some raw ∷ fq) = some (some (package_get raw), fq)

-- The loop. `none` is a loop that goes on for longer than the fuel, or a round that does not end or
-- writes outside the unit. With nothing left in `fq` it waits.
unfoldable pub recv_loop : ℕ → Receiver → List (Option Package) → Option Receiver
recv_loop zero s fq = none
recv_loop (suc fuel) s fq = elim (arrival s.held fq) [
  | none ↦ some s
  | some (none, rest) ↦ recv_loop fuel s rest
  | some (some p, rest) ↦ elim (transqueue_recv s p rest) [
    | none ↦ none
    | some (t, left) ↦ recv_loop fuel t left
  ]
]
