-- ===== src/Queue/Fifo.antt =====
-- What the threads do to the queue, seen from outside: one put or one get at a time, first in, first
-- out.
use zxlib.Prelude.{
  ℕ, ◌<◌, ◌≡◌, ◌≢◌, ◌⊎◌, inl, inr, refl, sym, ap, arith, Bool, true, false, Option, none, some,
  List, [], ◌∷◌, ◌++◌, length, ℕ_discrete,
}
use zxlib.Prelude.Family.{update}
use zxlib.Queue.ListOf.{ListOf}
use zxlib.Queue.Threads.{
  Op, put, get, empty, Queue, is_ready, new_list, result, answer, Pc, loaded, stored, Move, call,
  take, busy, ready, unready, give_back, again, time_out, load, store, release, System, Step, pick,
  Reach,
}
use zxlib.Queue.Owner.{Inv, Reach-Inv}

-- A queue of at most `max` members, or of any number if `max` is zero: what is put comes last, and
-- what is got was the first.
pub data Fifo {V : Type 0} (max : ℕ) (vs : List V) : Op V → Option V → List V → Type 0 where
  pushed :
      {v : V} {r : Option V} {ws : List V}
      → (max ≡ 0) ⊎ (length vs < max)
      → r ≡ none
      → ws ≡ vs ++ v ∷ []
      → Fifo max vs (put v) r ws
  popped : {v : V} {r : Option V} {ws : List V} → vs ≡ v ∷ ws → r ≡ some v → Fifo max vs get r ws

module _ {V : Type 0} (lib : ListOf V) where
  open lib use {Carrier, items, items-list_push, list_pop_front, list_size-items}

  -- The members, the oldest first.
  abbrev pub contents : System lib → List V
  contents s = items s.q.list

  -- A list that is not empty has a first member.
  popped_front :
      (max : ℕ) (l : Carrier) (vs : List V)
      → items l ≡ vs
      → 0 < length vs
      → Fifo max vs get (lib.list_pop l).0 (items (lib.list_pop l).1)
  popped_front max l [] e h = absurd (omega arith)
  popped_front max l (v ∷ vs) e h =
      let (front, rest) = list_pop_front l v vs e in popped (ap (λ ws. v ∷ ws) (sym rest)) front

  -- With its condition true on the list as it is, a call does what it should.
  pub op-Fifo :
      (q : Queue lib) (op : Op V)
      → is_ready lib q op ≡ true
      → op ≢ empty
      → Fifo q.max (items q.list) op (result lib op q.list) (items (new_list lib op q.list q.list))
  unfolding is_ready result new_list
  op-Fifo q (put v) e ne = pushed (room q e) refl (items-list_push q.list v)
    where
      room :
          (q : Queue lib)
          → is_ready lib q (put v) ≡ true
          → (q.max ≡ 0) ⊎ (length (items q.list) < q.max)
      room q e = elim (ℕ_discrete q.max 0) [
        | yes z ↦ inl z
        | no nz ↦ inr (ground (arith, list_size-items q.list))
      ]
  op-Fifo q get e ne =
      popped_front q.max q.list (items q.list) refl (ground (arith, list_size-items q.list))
  op-Fifo q empty e ne = absurd (ne refl)

  answer-true : (op : Op V) (l : Carrier) → op ≢ empty → answer lib op l ≡ true
  unfolding answer
  answer-true (put v) l ne = refl
  answer-true get l ne = refl
  answer-true empty l ne = absurd (ne refl)

  -- A step that leaves the members alone, or the one call that acts on them now.
  pub data Refines (s t : System lib) : Type 0 where
    silent : contents t ≡ contents s → Refines s t
    acts :
        (i : ℕ) (op : Op V) (r : Option V)
        → t.pc i ≡ stored op true r
        → Fifo s.q.max (contents s) op r (contents t)
        → Refines s t

  Move-Refines :
      {may_call : Op V → Bool} {q q' : Queue lib} {pc : ℕ → Pc lib} {p p' : Pc lib} (i : ℕ)
      → Inv lib q pc
      → pc i ≡ p
      → Move lib may_call q p q' p'
      → Refines (record { q = q; pc = pc }) (record { q = q'; pc = update pc i p' })
  Move-Refines i inv e (call time r m) = silent refl
  Move-Refines i inv e (take f) = silent refl
  Move-Refines i inv e (busy f) = silent refl
  Move-Refines i inv e (ready f) = silent refl
  Move-Refines i inv e (unready f) = silent refl
  Move-Refines i inv e give_back = silent refl
  Move-Refines i inv e again = silent refl
  Move-Refines i inv e (time_out t f) = silent refl
  Move-Refines i inv e load = silent refl
  Move-Refines i inv e release = silent refl
  Move-Refines {q} {pc} i inv e (store {op} {l}) = acts i op (result lib op l) (answers e) (
      stored_Fifo q l op (ground (arith, inv.fresh i)) (ground (arith, inv.fresh i))
        (λ z. ground (arith, inv.none_empties i)))
    where
      answers :
          pc i ≡ loaded op l
          → update pc i (stored op (answer lib op l) (result lib op l)) i
            ≡ stored op true (result lib op l)
      answers e = ground (arith, answer-true op l (λ z. ground (arith, inv.none_empties i)))

      stored_Fifo :
          (q : Queue lib) (l : Carrier) (op : Op V)
          → q.list ≡ l
          → is_ready lib q op ≡ true
          → op ≢ empty
          → Fifo q.max (items q.list) op (result lib op l) (items (new_list lib op l q.list))
      stored_Fifo q l op f g ne = rw (← f) (op-Fifo q op g ne)

  -- While no thread calls `queue_empty`, each step of the threads is silent or does to the members
  -- what one put or one get does: a put adds its pointer at the end, and only below the maximum,
  -- and a get takes the first away and returns it.
  pub Step-Refines :
      {may_call : Op V → Bool} {max : ℕ} {s t : System lib}
      → may_call empty ≡ false
      → Reach lib may_call max s
      → Step lib may_call s t
      → Refines s t
  Step-Refines never r (pick i mv) = Move-Refines i (Reach-Inv lib never r) refl mv
