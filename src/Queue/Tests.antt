-- ===== src/Queue/Tests.antt =====
-- The list of klib as a plain list, and runs of one and two threads.
use zxlib.Prelude.{
  ℕ, ◌≤◌, ◌<◌, ◌≡◌, refl, ap, arith, Bool, true, false, Option, none, some, List, [], ◌∷◌, ◌++◌,
  length,
}
use zxlib.Prelude.Family.{update}
use zxlib.Queue.ListOf.{ListOf}
use zxlib.Queue.Threads.{
  Op, put, empty, is_ready, idle, held, call, take, ready, load, store, release, System, pick,
  queue_init, Reach, start, later,
}
use zxlib.Queue.Owner.{owns, mutual_exclusion}
use zxlib.Queue.Fifo.{Refines, Step-Refines}
use zxlib.Queue.History.{Run, begin, next, first_in_first_out}
use zxlib.Queue.Progress.{Alone, lock_comes_free, queue_empty_unlocks}

abbrev plain_pop : List ℕ → Option ℕ × List ℕ
plain_pop [] = (none, [])
plain_pop (v ∷ vs) = (some v, vs)

abbrev plain : ListOf ℕ
plain = record {
  Carrier = List ℕ;
  list_new = [];
  list_push = λ l v. l ++ v ∷ [];
  list_pop = plain_pop;
  list_size = λ l. length l;
  items = λ l. l;
  items-list_new = refl;
  items-list_push = λ l v. refl;
  list_pop_front = λ l v vs e. (ap (λ l. (plain_pop l).0) e, ap (λ l. (plain_pop l).1) e);
  list_size-items = λ l. refl;
}

-- Threads that put and get only.
abbrev no_empty : Op ℕ → Bool
no_empty empty = false
no_empty _ = true

abbrev every : Op ℕ → Bool
every _ = true

-- Thread 0 puts 7 into a queue of one.
record Trace (ins outs : List ℕ) : Type 0 where
  last : System plain
  run : Run plain no_empty 1 last ins outs

abbrev put_seven : Trace (7 ∷ []) []
unfolding queue_init is_ready
put_seven = record {
  last = _;
  run =
      next 0
        (next 0
          (next 0
            (next 0 (next 0 (next 0 begin (call {op = put 7} none refl refl)) (take refl))
              (ready refl))
            load)
          store)
        release;
}

-- The same thread then waits for room, with the queue full, and holds the lock.
abbrev holding : System plain
holding = record {
  q = record { max = 1; lock = 1; list = 7 ∷ [] };
  pc = update (λ i. idle) 0 (held (put 8) none);
}

record Reached : Type 0 where
  last : System plain
  reach : Reach plain no_empty 1 last

-- Thread 0 has taken the lock.
abbrev taken : Reached
unfolding queue_init
taken = record {
  last = _;
  reach = later (later start (pick 0 (call {op = put 7} none refl refl))) (pick 0 (take refl));
}

mutual_exclusion_example :
    (taken.last.q.lock ≡ 1) × (owns plain (taken.last.pc 1) ≡ true → ◌≡◌ {A = ℕ} 0 1)
unfolding queue_init
mutual_exclusion_example = mutual_exclusion plain {may_call = no_empty} refl taken.reach 0 1 refl

first_in_first_out_example :
    ([] ++ put_seven.last.q.list ≡ 7 ∷ []) × (0 < 1 → length put_seven.last.q.list ≤ 1)
unfolding queue_init is_ready
first_in_first_out_example = first_in_first_out plain {may_call = no_empty} refl put_seven.run

lock_comes_free_example :
    (i : ℕ) × (u : System plain) × Alone plain no_empty i taken.last u × (u.q.lock ≡ 0)
unfolding queue_init
lock_comes_free_example = lock_comes_free plain {may_call = no_empty} refl taken.reach

queue_empty_unlocks_example :
    (u : System plain) × Alone plain every 1 holding u
    × (owns plain (u.pc 0) ≡ true)
    × (u.q.lock ≡ 0)
queue_empty_unlocks_example =
    queue_empty_unlocks plain every 0 1 holding refl (omega arith) refl refl refl

-- The step in which thread 0 writes the list.
abbrev wrote : Reached
unfolding queue_init is_ready
wrote = record {
  last = _;
  reach = later (later (later taken.reach (pick 0 (ready refl))) (pick 0 load)) (pick 0 store);
}

abbrev about_to_write : Reached
unfolding queue_init is_ready
about_to_write = record {
  last = _;
  reach = later (later taken.reach (pick 0 (ready refl))) (pick 0 load);
}

Step-Refines_example : Refines plain about_to_write.last wrote.last
unfolding queue_init is_ready
Step-Refines_example =
    Step-Refines plain {may_call = no_empty} refl about_to_write.reach (pick 0 store)
