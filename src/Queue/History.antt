-- ===== src/Queue/History.antt =====
-- Runs of the threads with what has been put and got: first in, first out, and never too many.
use zxlib.Prelude.{
  ℕ, ◌<◌, ◌≤◌, ◌≡◌, ◌⊎◌, inl, inr, refl, subst, sym, ap, ◌∙◌, arith, Bool, true, false, Option,
  none, some, List, [], ◌∷◌, ◌++◌, append_assoc, length, length-append,
}
use zxlib.Prelude.Family.{update}
use zxlib.Queue.ListOf.{ListOf}
use zxlib.Queue.Threads.{
  Op, put, get, empty, Queue, new_list, result, Pc, idle, trying, held, failing, late, entered,
  loaded, stored, returned, at_rest, Move, call, take, busy, ready, unready, give_back, again,
  time_out, load, store, release, System, pick, queue_init, Reach, start, later,
}
use zxlib.Queue.Owner.{Inv, Reach-Inv}
use zxlib.Queue.Fifo.{Fifo, pushed, popped, op-Fifo}

module _ {V : Type 0} (lib : ListOf V) where
  open lib use {Carrier, items, items-list_new}

  -- A run, with what has been put and what has been got in it, in the order of the writes.
  abbrev pub put_by : Pc lib → List V → List V
  put_by (loaded (put v) l) ins = ins ++ v ∷ []
  put_by _ ins = ins

  abbrev pub got : Option V → List V → List V
  got none outs = outs
  got (some v) outs = outs ++ v ∷ []

  abbrev pub got_by : Pc lib → List V → List V
  got_by (loaded get l) outs = got (result lib get l) outs
  got_by _ outs = outs

  pub data Run (may_call : Op V → Bool) (max : ℕ) : System lib → List V → List V → Type 0 where
    begin : Run may_call max (record { q = queue_init lib max; pc = λ i. idle }) [] []
    next :
        {s : System lib} {ins outs : List V} (i : ℕ) {q : Queue lib} {p : Pc lib}
        → Run may_call max s ins outs
        → Move lib may_call s.q (s.pc i) q p
        → Run may_call max
            (record { q = q; pc = update s.pc i p })
            (put_by (s.pc i) ins)
            (got_by (s.pc i) outs)

  Run-Reach :
      {may_call : Op V → Bool} {max : ℕ} {s : System lib} {ins outs : List V}
      → Run may_call max s ins outs
      → Reach lib may_call max s
  Run-Reach begin = start
  Run-Reach (next i r mv) = later (Run-Reach r) (pick i mv)

  -- What one step does to the three lists.
  record Balanced (max : ℕ) (q : Queue lib) (ins outs : List V) : Type 0 where
    kept : outs ++ items q.list ≡ ins
    same_max : q.max ≡ max
    small : (max ≡ 0) ⊎ (length (items q.list) ≤ max)

  Fifo-Balanced :
      {op : Op V} {r : Option V} {max : ℕ} {vs ws : List V} (ins outs : List V)
      → Fifo max vs op r ws
      → outs ++ vs ≡ ins
      → (max ≡ 0) ⊎ (length vs ≤ max)
      → (l : Carrier) → r ≡ result lib op l
      → (got_by (loaded op l) outs ++ ws ≡ put_by (loaded op l) ins)
        × ((max ≡ 0) ⊎ (length ws ≤ max))
  Fifo-Balanced {vs} ins outs (pushed {v} room e f) k small l g = (
    rw f (sym (append_assoc outs vs (v ∷ [])) ∙ ap (λ t. t ++ v ∷ []) k),
    elim room [ inl z ↦ inl z | inr lt ↦ inr (ground (arith, length-append vs (v ∷ []))) ],
  )
  Fifo-Balanced {ws} ins outs (popped {v} e f) k small l g = (
    ap (λ r. got r outs ++ ws) (sym g ∙ f)
        ∙ append_assoc outs (v ∷ []) ws
        ∙ ap (λ t. outs ++ t) (sym e)
        ∙ k,
    elim small [ inl z ↦ inl z | inr le ↦ inr (omega (arith, ap (λ t. length t) e)) ],
  )

  rest-Balanced :
      {max : ℕ} {q : Queue lib} {ins outs : List V} (p : Pc lib)
      → at_rest lib p ≡ true
      → Balanced max q ins outs
      → Balanced max q (put_by p ins) (got_by p outs)
  rest-Balanced idle r b = b
  rest-Balanced (returned op a v) r b = b
  rest-Balanced (trying op time) r b = absurd (cc r)
  rest-Balanced (held op time) r b = absurd (cc r)
  rest-Balanced (failing op time) r b = absurd (cc r)
  rest-Balanced (late op time) r b = absurd (cc r)
  rest-Balanced (entered op) r b = absurd (cc r)
  rest-Balanced (loaded op l) r b = absurd (cc r)
  rest-Balanced (stored op a v) r b = absurd (cc r)

  Move-Balanced :
      {may_call : Op V → Bool} {max : ℕ} {q q' : Queue lib} {pc : ℕ → Pc lib} {p p' : Pc lib}
      {ins outs : List V} (i : ℕ)
      → Inv lib q pc
      → pc i ≡ p
      → Move lib may_call q p q' p'
      → Balanced max q ins outs
      → Balanced max q' (put_by p ins) (got_by p outs)
  Move-Balanced {p} i inv e (call time r m) b = rest-Balanced p r b
  Move-Balanced i inv e (take f) b = record {
    kept = b.kept;
    same_max = b.same_max;
    small = b.small;
  }
  Move-Balanced i inv e (busy f) b = b
  Move-Balanced i inv e (ready f) b = b
  Move-Balanced i inv e (unready f) b = b
  Move-Balanced i inv e give_back b = record {
    kept = b.kept;
    same_max = b.same_max;
    small = b.small;
  }
  Move-Balanced i inv e again b = b
  Move-Balanced i inv e (time_out t f) b = b
  Move-Balanced i inv e load b = b
  Move-Balanced i inv e release b = record { kept = b.kept; same_max = b.same_max; small = b.small }
  Move-Balanced {max} {q} {pc} {ins} {outs} i inv e (store {op} {l}) b =
      let seen : q.list ≡ l = ground (arith, inv.fresh i) in
      let (kept, small) =
        Fifo-Balanced {max = max} ins outs
          (subst
            (λ m. Fifo m (items q.list) op (result lib op l) (items (new_list lib op l q.list)))
            b.same_max
            (rw (← seen) (
              op-Fifo lib q op (ground (arith, inv.fresh i))
                (λ z. ground (arith, inv.none_empties i)))))
          b.kept b.small l refl in
      record { kept = kept; same_max = b.same_max; small = small }

  Run-Balanced :
      {may_call : Op V → Bool} {max : ℕ} {s : System lib} {ins outs : List V}
      → may_call empty ≡ false
      → Run may_call max s ins outs
      → Balanced max s.q ins outs
  unfolding queue_init
  Run-Balanced never begin = record {
    kept = items-list_new;
    same_max = refl;
    small = inr (omega (arith, ap (λ t. length t) items-list_new));
  }
  Run-Balanced never (next i r mv) =
      Move-Balanced i (Reach-Inv lib never (Run-Reach r)) refl mv (Run-Balanced never r)

  -- In every run of threads that put and get, for any times to wait, what has been got and then what
  -- is in the queue is what has been put, in the order in which it was put: nothing is lost, made
  -- up, doubled or overtaken. A queue with a maximum never has more members than that.
  pub first_in_first_out :
      {may_call : Op V → Bool} {max : ℕ} {s : System lib} {ins outs : List V}
      → may_call empty ≡ false
      → Run may_call max s ins outs
      → (outs ++ items s.q.list ≡ ins) × (0 < max → length (items s.q.list) ≤ max)
  first_in_first_out {max} never r =
      let b = Run-Balanced never r in
      (b.kept, λ p. elim b.small [ inl z ↦ absurd (omega arith) | inr le ↦ le ])
