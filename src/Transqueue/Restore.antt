-- ===== src/Transqueue/Restore.antt =====
-- The receiver's round for a packet before which others are missing: with few enough losses all of
-- the rest of the unit is handed over.
use zxlib.Prelude.{
  ◌^◌, ℕ, zero, suc, ◌+◌, ◌-◌, ◌<◌, ◌≤◌, ◌≡◌, ◌≢◌, refl, ap, arith, Bool, true, false, Option, some,
  List, [], ◌∷◌, ◌++◌, ◌==◌, if◌then◌else◌, Any, here, Any-append, append-Any, ℕ_discrete,
}
use zxlib.Package.{Package, package_offset_code, package_offset_task}
use zxlib.Package.Task.{get_task_word}
use zxlib.Package.Words.{package_get}
use zxlib.UnitCode.{unit_decode}
use zxlib.UnitCode.Size.{unit_data_count}
use zxlib.UnitCode.Cell.{PackageUnit, store}
use zxlib.UnitCode.Encode.{IsCodeword}
use zxlib.UnitCode.Repairs.{count_lost, IsReceivedUnit}
use zxlib.UnitCode.Recovery.{unit_decode_few}
use zxlib.Transqueue.Send.{place_i, place_j, place_k}
use zxlib.Transqueue.Receive.{
  Receiver, as_int, has_cell, keep, recovered, gather, numbered, deliver, restore,
}
use zxlib.Transqueue.Deliver.{outcome, handed, deliver_lem}

-- The packet `q` that is handed over is data packet `num` of unit `id`: the words of the one sent,
-- its task, and its place.
pub record IsDelivered (v : PackageUnit) (unit num : ℕ) (q : Package) : Type 0 where
  pub words :
      (w : ℕ)
      → w < package_offset_code
      → q.words w ≡ (v (place_i num) (place_j num) (place_k num)).words w
  pub task :
      q.task
      ≡ get_task_word ((v (place_i num) (place_j num) (place_k num)).words package_offset_task)
  pub id : q.code.id ≡ unit
  pub num_of : q.code.num ≡ num

-- Data packet `num` of the sent unit is not one that only fills the unit.
abbrev pub IsFilled : PackageUnit → ℕ → Type 0
IsFilled v num =
    (get_task_word ((v (place_i num) (place_j num) (place_k num)).words package_offset_task)).empty
    ≡ 0

-- An unsigned number that an `int` holds.
pub as_int-small : (id : ℕ) → id < 2 ^ 31 → as_int id ≡ id
as_int-small id h = ground arith

pub keep_inside :
    (u : PackageUnit) (p : Package)
    → has_cell p ≡ true
    → keep u p ≡ some (store u p.code.i0 p.code.i1 p.code.i2 p)
unfolding keep
keep_inside u p e = rw e refl

IsDelivered-numbered :
    (v : PackageUnit) (id num : ℕ) (p : Package)
    → ((w : ℕ)
        → w < package_offset_code
        → p.words w ≡ (v (place_i num) (place_j num) (place_k num)).words w)
    → IsDelivered v id num (numbered id num (package_get p))
unfolding package_get
IsDelivered-numbered v id num p h = record {
  words = λ w lt. ground (arith, h w lt);
  task = ap get_task_word (h package_offset_task (omega arith));
  id = refl;
  num_of = refl;
}

pick-Any :
    (P : Package → Type 0) (b c : Bool) (p : Package)
    → b ≡ true
    → c ≡ true
    → P p
    → Any P (if b then (if c then p ∷ [] else []) else [])
pick-Any P true true p d e h = here h
pick-Any P true false p d e h = absurd (ground (arith, e))
pick-Any P false c p d e h = absurd (ground (arith, d))

filled_task :
    (v : PackageUnit) (num : ℕ) (p : Package)
    → p.task
      ≡ get_task_word ((v (place_i num) (place_j num) (place_k num)).words package_offset_task)
    → IsFilled v num
    → (p.task.empty == 0) ≡ true
filled_task v num p a b = ground (arith, a, b)

outcome-Any :
    (v t : PackageUnit) (id num : ℕ)
    → (t (place_i num) (place_j num) (place_k num)).exist ≡ true
    → ((w : ℕ)
        → w < package_offset_code
        → (t (place_i num) (place_j num) (place_k num)).words w
          ≡ (v (place_i num) (place_j num) (place_k num)).words w)
    → IsFilled v num
    → Any (IsDelivered v id num) (outcome id num t)
unfolding outcome
outcome-Any v t id num e h f =
    let d = IsDelivered-numbered v id num (t (place_i num) (place_j num) (place_k num)) h in
    pick-Any (IsDelivered v id num) _ _ _ e
      (filled_task v num
        (numbered id num (package_get (t (place_i num) (place_j num) (place_k num)))) d.task f)
      d

handed-Any :
    (P : Package → Type 0) (id from n num : ℕ) (t : PackageUnit)
    → from ≤ num
    → num < from + n
    → Any P (outcome id num t)
    → Any P (handed id from n t)
unfolding handed
handed-Any P id from zero num t a b h = absurd (omega arith)
handed-Any P id from (suc n) num t a b h = elim (ℕ_discrete num (from + n)) [
  | yes e ↦ append-Any P (handed id from n t) _ (rw (← e) h)
  | no ne ↦ Any-append P (handed id from n t) _ (handed-Any P id from n num t a (omega arith) h)
]

-- The state after the round, for the unit `t` that `unit_decode` has left.
abbrev pub restored :
    Receiver → (number_old : ℕ) → Package → (held : Option Package) → PackageUnit → Receiver
restored s number_old p held t =
    let (w, q) = deliver (as_int p.code.id) number_old (t, s.q) in recovered held p w q

pub restore_lem :
    (s : Receiver) (number_old : ℕ) (p : Package) (fq : List (Option Package)) {u : PackageUnit}
    {held : Option Package} {rest : List (Option Package)} (result : ℕ) (t : PackageUnit)
    → p.code.num ≢ 0
    → gather s.u p fq ≡ some (u, held, rest)
    → unit_decode u ≡ some (result, t)
    → restore s number_old p fq ≡ some (restored s number_old p held t, rest)
unfolding restore
restore_lem s number_old p fq result t ne g e = rw (not_first ne, g, e) refl
  where
    not_first : p.code.num ≢ 0 → (p.code.num == 0) ≡ false
    not_first ne = ground arith

-- A packet comes before which packets of the unit are missing; it is not packet zero, and the number
-- of its unit fits 31 bits. It and the others of its unit that are collected after it all stand
-- inside the unit, which they make `u`. If fewer than eight packets are missing in `u`, and the
-- others are those of the codeword `v`, the round ends, and each data packet of `v` after
-- `number_old` that is not a filling one is in the queue, with the words that were sent, its task
-- and its number. What was in the queue before stays in front.
pub restore_few :
    (v : PackageUnit) (s : Receiver) (number_old : ℕ) (p : Package) (fq : List (Option Package))
    {u : PackageUnit} {held : Option Package} {rest : List (Option Package)}
    → IsCodeword v
    → p.code.id < 2 ^ 31
    → p.code.num ≢ 0
    → gather s.u p fq ≡ some (u, held, rest)
    → IsReceivedUnit v u
    → count_lost u < 8
    → (t : Receiver) × (more : List Package) × (restore s number_old p fq ≡ some (t, rest))
      × (t.q ≡ s.q ++ more)
      × ((num : ℕ)
          → number_old < num
          → num < unit_data_count
          → IsFilled v num
          → Any (IsDelivered v p.code.id num) more)
restore_few v s number_old p fq {u} {held} code small ne g got few =
    let (t, runs, all, same) = unit_decode_few v u code got few in
    (
      restored s number_old p held t,
      handed (as_int p.code.id) (number_old + 1) (343 - (number_old + 1)) t,
      restore_lem s number_old p fq 0 t ne g runs,
      deliver_lem (as_int p.code.id) number_old t s.q,
      λ num a b f. rw (as_int-small p.code.id small) (
          handed-Any (IsDelivered v p.code.id num) p.code.id (number_old + 1)
            (343 - (number_old + 1)) num t (omega arith) (omega arith)
            (outcome-Any v t p.code.id num
              (all (place_i num) (place_j num) (place_k num) (omega arith) (omega arith)
                (omega arith))
              (λ w lt.
                same (place_i num) (place_j num) (place_k num) w (omega arith) (omega arith)
                  (omega arith) lt)
              f)),
    )
