-- ===== src/Queue/Owner.antt =====
-- While no thread calls `queue_empty`, one thread at most is between its `trylock` and its `unlock`,
-- and what it has seen of the queue is still so.
use zxlib.Prelude.{ℕ, ◌≡◌, ◌⊎◌, inl, inr, refl, arith, Bool, true, false}
use zxlib.Prelude.Family.{update}
use zxlib.Queue.ListOf.{ListOf}
use zxlib.Queue.Threads.{
  Op, put, empty, Queue, is_ready, Pc, trying, held, failing, late, entered, loaded, stored,
  timed_out, Move, call, take, ready, give_back, release, System, Step, pick, queue_init, Reach,
  start, later,
}

module _ {V : Type 0} (lib : ListOf V) where
  -- Between the `trylock` that took the lock and the `unlock`.
  abbrev pub owns : Pc lib → Bool
  owns (held op time) = true
  owns (failing op time) = true
  owns (entered op) = true
  owns (loaded op l) = true
  owns (stored op b v) = true
  owns _ = false

  -- Where a call of `queue_empty` is going on.
  abbrev pub empties : Pc lib → Bool
  empties (trying empty time) = true
  empties (held empty time) = true
  empties (failing empty time) = true
  empties (late empty time) = true
  empties (entered empty) = true
  empties (loaded empty l) = true
  empties _ = false

  -- What a thread has seen holds.
  abbrev pub IsFresh : Queue lib → Pc lib → Type 0
  IsFresh q (entered op) = is_ready lib q op ≡ true
  IsFresh q (loaded op l) = (q.list ≡ l) × (is_ready lib q op ≡ true)
  IsFresh q _ = Unit

  pub record Inv (q : Queue lib) (pc : ℕ → Pc lib) : Type 0 where
    pub unique : (i j : ℕ) → owns (pc i) ≡ true → owns (pc j) ≡ true → i ≡ j
    pub locked : (i : ℕ) → owns (pc i) ≡ true → q.lock ≡ 1
    pub fresh : (i : ℕ) → IsFresh q (pc i)
    pub none_empties : (i : ℕ) → empties (pc i) ≡ false
    pub owned : (q.lock ≡ 0) ⊎ ((i : ℕ) × (owns (pc i) ≡ true))

  abbrev Guard :
      {may_call : Op V → Bool} {q q' : Queue lib} {p p' : Pc lib}
      → Move lib may_call q p q' p'
      → Type 0
  Guard {may_call} (call {op} time r m) = (may_call op ≡ true)
  Guard {q} (take f) = (q.lock ≡ 0)
  Guard {q} (ready {op} r) = (is_ready lib q op ≡ true)
  Guard _ = Unit

  guard :
      {may_call : Op V → Bool} {q q' : Queue lib} {p p' : Pc lib} (mv : Move lib may_call q p q' p')
      → Guard mv
  guard (call time r m) = m
  guard (take f) = f
  guard (ready r) = r
  guard _ = tt

  module _ {may_call : Op V → Bool} (never : may_call empty ≡ false) {q : Queue lib}
      {pc : ℕ → Pc lib} (inv : Inv q pc) (i : ℕ) where
    open inv use {unique, locked, fresh, none_empties}

    Move-none_empties :
        {p p' : Pc lib} {q' : Queue lib}
        → Move lib may_call q p q' p'
        → pc i ≡ p
        → (j : ℕ) → empties (update pc i p' j) ≡ false
    unfolding timed_out
    Move-none_empties (call {op = put v} time r m) e j = ground (arith, none_empties j)
    Move-none_empties mv e j = ground (arith, guard mv, none_empties j, none_empties i)

    Move-unique :
        {p p' : Pc lib} {q' : Queue lib}
        → Move lib may_call q p q' p'
        → pc i ≡ p
        → (a b : ℕ) → owns (update pc i p' a) ≡ true
        → owns (update pc i p' b) ≡ true
        → a ≡ b
    unfolding timed_out
    Move-unique (call time r m) e a b oa ob = ground (arith, unique a b)
    Move-unique mv e a b oa ob =
        ground
          (arith, guard mv, none_empties i, unique a b, unique i a, unique i b, locked a, locked b)

    Move-locked :
        {p p' : Pc lib} {q' : Queue lib}
        → Move lib may_call q p q' p'
        → pc i ≡ p
        → (j : ℕ) → owns (update pc i p' j) ≡ true
        → q'.lock ≡ 1
    unfolding timed_out
    Move-locked (call time r m) e j o = ground (arith, locked j)
    Move-locked mv e j o = ground (arith, guard mv, none_empties i, locked j, locked i, unique i j)

    Move-IsFresh :
        {p p' : Pc lib} {q' : Queue lib}
        → Move lib may_call q p q' p'
        → pc i ≡ p
        → (j : ℕ) → IsFresh q' (update pc i p' j)
    unfolding timed_out is_ready
    Move-IsFresh (call time r m) e j = ground (arith, fresh j)
    Move-IsFresh mv e j = ground (arith, guard mv, fresh j, fresh i, unique i j)

    -- Who owns the lock after the move, if anyone does.
    Move-owned :
        {p p' : Pc lib} {q' : Queue lib}
        → Move lib may_call q p q' p'
        → pc i ≡ p
        → (q.lock ≡ 0) ⊎ ((j : ℕ) × (owns (pc j) ≡ true))
        → (q'.lock ≡ 0) ⊎ ((j : ℕ) × (owns (update pc i p' j) ≡ true))
    unfolding timed_out
    Move-owned (take f) e o = inr (i, ground arith)
    Move-owned give_back e o = inl refl
    Move-owned release e o = inl refl
    Move-owned (call time r m) e (inl z) = inl z
    Move-owned (call time r m) e (inr (j, o)) = inr (j, ground arith)
    Move-owned mv e (inl z) = inl z
    Move-owned mv e (inr (j, o)) = inr (j, ground (arith, guard mv, none_empties i))

    Move-Inv :
        {p' : Pc lib} {q' : Queue lib} → Move lib may_call q (pc i) q' p' → Inv q' (update pc i p')
    Move-Inv mv = record {
      unique = Move-unique mv refl;
      locked = Move-locked mv refl;
      fresh = Move-IsFresh mv refl;
      none_empties = Move-none_empties mv refl;
      owned = Move-owned mv refl inv.owned;
    }

  pub Step-Inv :
      {may_call : Op V → Bool} {s t : System lib}
      → may_call empty ≡ false
      → Inv s.q s.pc
      → Step lib may_call s t
      → Inv t.q t.pc
  Step-Inv never inv (pick i mv) = Move-Inv never inv i mv

  pub Reach-Inv :
      {may_call : Op V → Bool} {max : ℕ} {s : System lib}
      → may_call empty ≡ false
      → Reach lib may_call max s
      → Inv s.q s.pc
  unfolding queue_init
  Reach-Inv never start = record {
    unique = λ i j o. cc;
    locked = λ i o. cc;
    fresh = λ i. tt;
    none_empties = λ i. refl;
    owned = inl refl;
  }
  Reach-Inv never (later r st) = Step-Inv never (Reach-Inv never r) st

  -- Of threads that call `queue_put` and `queue_get`, for any time and in any order, two are never
  -- between the `trylock` that takes the lock and the `unlock` together, and while one is, the
  -- lock is taken.
  pub mutual_exclusion :
      {may_call : Op V → Bool} {max : ℕ} {s : System lib}
      → may_call empty ≡ false
      → Reach lib may_call max s
      → (i j : ℕ) → owns (s.pc i) ≡ true
      → (s.q.lock ≡ 1) × (owns (s.pc j) ≡ true → i ≡ j)
  mutual_exclusion never r i j o = let inv = Reach-Inv never r in (inv.locked i o, inv.unique i j o)
