-- ===== src/Queue/Progress.antt =====
-- What a thread can do alone: finish its call, give the lock back, and, in `queue_empty`, take it from
-- another.
use zxlib.Prelude.{
  ℕ, ◌≡◌, ◌≢◌, refl, subst, sym, ap, arith, Bool, true, false, Option, some, Bool-cases, inl, inr,
}
use zxlib.Prelude.Family.{update}
use zxlib.Queue.ListOf.{ListOf}
use zxlib.Queue.Threads.{
  Op, empty, Queue, is_ready, new_list, result, answer, Pc, idle, trying, held, failing, late,
  entered, loaded, stored, returned, at_rest, timed_out, Move, call, take, busy, ready, unready,
  give_back, time_out, load, store, release, System, Reach,
}
use zxlib.Queue.Owner.{owns, Reach-Inv}

module _ {V : Type 0} (lib : ListOf V) where
  -- Steps of thread `i` only.
  pub data Alone (may_call : Op V → Bool) (i : ℕ) (s : System lib) : System lib → Type 0 where
    none_yet : Alone may_call i s s
    one_more :
        {t : System lib} {q : Queue lib} {p : Pc lib}
        → Alone may_call i s t
        → Move lib may_call t.q (t.pc i) q p
        → Alone may_call i s (record { q = q; pc = update t.pc i p })

  self : {A : Type 0} (f : ℕ → A) (i : ℕ) (a : A) → update f i a i ≡ a
  self f i a = ground arith

  -- The thread `i` can come, alone, to `p` with this queue.
  record At (may_call : Op V → Bool) (i : ℕ) (s : System lib) (q : Queue lib) (p : Pc lib)
      : Type 0 where
    state : System lib
    alone : Alone may_call i s state
    same_q : state.q ≡ q
    there : state.pc i ≡ p
    others : (j : ℕ) → j ≢ i → state.pc j ≡ s.pc j

  module _ {may_call : Op V → Bool} {i : ℕ} {s : System lib} where
    standing : {p : Pc lib} → s.pc i ≡ p → At may_call i s s.q p
    standing e = record {
      state = s;
      alone = none_yet;
      same_q = refl;
      there = e;
      others = λ j ne. refl;
    }

    go :
        {q q' : Queue lib} {p p' : Pc lib}
        → At may_call i s q p
        → Move lib may_call q p q' p'
        → At may_call i s q' p'
    go {q' = q'} {p' = p'} a mv = record {
      state = record { q = q'; pc = update a.state.pc i p' };
      alone = one_more a.alone (
          subst (λ p. Move lib may_call a.state.q p q' p') (sym a.there)
            (subst (λ q. Move lib may_call q _ q' p') (sym a.same_q) mv));
      same_q = refl;
      there = self a.state.pc i p';
      others = λ j ne. ground (arith, a.others j ne);
    }

  -- A thread that stands before `trylock` on a free lock, with its condition true, finishes its call
  -- alone: it returns the answer of
  -- the call, the list is what the call makes of it, and the lock is
  -- free again.
  pub call_finishes :
      (may_call : Op V → Bool) (i : ℕ) (s : System lib) (op : Op V) (time : Option ℕ)
      → s.pc i ≡ trying op time
      → s.q.lock ≡ 0
      → is_ready lib s.q op ≡ true
      → (u : System lib) × Alone may_call i s u
        × (u.pc i ≡ returned op (answer lib op s.q.list) (result lib op s.q.list))
        × (u.q ≡ record { max = s.q.max; lock = 0; list = new_list lib op s.q.list s.q.list })
  unfolding is_ready
  call_finishes may_call i s op time e f g =
      let a =
        go (go (go (go (go (standing {may_call = may_call} e) (take f)) (ready g)) load) store)
          release in
      (a.state, a.alone, a.there, a.same_q)

  -- From where a thread owns the lock, it can give it back alone.
  gives_back :
      {may_call : Op V → Bool} {i : ℕ} {s : System lib} {q : Queue lib} (p : Pc lib)
      → At may_call i s q p
      → owns lib p ≡ true
      → (u : System lib) × Alone may_call i s u × (u.q.lock ≡ 0)
  gives_back {q} (held op time) a o = elim (Bool-cases (is_ready lib q op)) [
    | inl yes_ready ↦
        let b = go (go (go (go a (ready yes_ready)) load) store) release in
        (b.state, b.alone, ap (λ q. q.lock) b.same_q)
    | inr not_ready ↦
        let b = go (go a (unready not_ready)) give_back in
        (b.state, b.alone, ap (λ q. q.lock) b.same_q)
  ]
  gives_back (failing op time) a o =
      let b = go a give_back in (b.state, b.alone, ap (λ q. q.lock) b.same_q)
  gives_back (entered op) a o =
      let b = go (go (go a load) store) release in (b.state, b.alone, ap (λ q. q.lock) b.same_q)
  gives_back (loaded op l) a o =
      let b = go (go a store) release in (b.state, b.alone, ap (λ q. q.lock) b.same_q)
  gives_back (stored op b' v) a o =
      let b = go a release in (b.state, b.alone, ap (λ q. q.lock) b.same_q)
  gives_back idle a o = absurd (cc o)
  gives_back (trying op time) a o = absurd (cc o)
  gives_back (late op time) a o = absurd (cc o)
  gives_back (returned op b' v) a o = absurd (cc o)

  -- The lock can always come free: in every state that threads can reach which put and get, either it
  -- is free or one thread frees it with steps of its own, whatever the others do not do.
  pub lock_comes_free :
      {may_call : Op V → Bool} {max : ℕ} {s : System lib}
      → may_call empty ≡ false
      → Reach lib may_call max s
      → (i : ℕ) × (u : System lib) × Alone may_call i s u × (u.q.lock ≡ 0)
  lock_comes_free {s} never r = elim (Reach-Inv lib never r).owned [
    | inl free ↦ (0, s, none_yet, free)
    | inr (i, o) ↦ let (u, a, f) = gives_back (s.pc i) (standing refl) o in (i, u, a, f)
  ]

  -- While a thread owns the lock, another one that calls `queue_empty` can come to release it: its
  -- wait is over at once, it does not look at what `lock` returns, and it unlocks. The first thread
  -- then still acts as the owner, with the lock free for a third.
  pub queue_empty_unlocks :
      (may_call : Op V → Bool) (i j : ℕ) (s : System lib)
      → may_call empty ≡ true
      → i ≢ j
      → owns lib (s.pc i) ≡ true
      → s.q.lock ≡ 1
      → at_rest lib (s.pc j) ≡ true
      → (u : System lib) × Alone may_call j s u × (owns lib (u.pc i) ≡ true) × (u.q.lock ≡ 0)
  unfolding timed_out
  queue_empty_unlocks may_call i j s m ne o l r =
      let a =
        go
          (go
            (go
              (go (go (go (standing refl) (call (some 0) r m)) (busy {op = empty} (ground arith)))
                (time_out 0 refl))
              load)
            store)
          release in
      (a.state, a.alone, ground (arith, a.others i ne), ap (λ q. q.lock) a.same_q)
