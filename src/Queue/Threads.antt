-- ===== src/Queue/Threads.antt =====
-- Threads that call `queue_put`, `queue_get` and `queue_empty` on one queue, interleaved in any
-- order, one access of the shared memory at a time. The waiting is that of `lock_3` in lock.h.
use zxlib.Prelude.{ℕ, ◌≡◌, ◌≢◌, Bool, true, false, not, ◌&&◌, ◌||◌, Option, none, some, ltb, ◌==◌}
use zxlib.Prelude.Family.{update}
use zxlib.Queue.ListOf.{ListOf}

-- A call, with the pointer that is put.
pub data Op (V : Type 0) : Type 0 where
  put : V → Op V
  get : Op V
  empty : Op V

module _ {V : Type 0} (lib : ListOf V) where
  open lib use {Carrier, list_push, list_pop, list_size}

  -- `max` is zero where the source has a number that is not positive.
  pub record Queue : Type 0 where
    pub max : ℕ
    pub lock : ℕ
    pub list : Carrier

  -- The second argument of `lock_3`.
  unfoldable pub is_ready : Queue → Op V → Bool
  is_ready q (put v) = q.max == 0 || (ltb 0 q.max && ltb (list_size q.list) q.max)
  is_ready q get = ltb 0 (list_size q.list)
  is_ready q empty = true

  -- What the call makes of the list `now`, with `l` the list that it has loaded, and what it stores
  -- through its pointer. `queue_empty` writes nothing.
  unfoldable pub new_list : Op V → (l now : Carrier) → Carrier
  new_list (put v) l now = list_push l v
  new_list get l now = (list_pop l).1
  new_list empty l now = now

  unfoldable pub result : Op V → Carrier → Option V
  result (put v) l = none
  result get l = (list_pop l).0
  result empty l = none

  -- What the function returns, once it has the lock.
  unfoldable pub answer : Op V → Carrier → Bool
  answer (put v) l = true
  answer get l = true
  answer empty l = not (ltb 0 (list_size l))

  -- Where a thread stands. The time to wait is `none` where the source has a negative number.
  pub data Pc : Type 0 where
    idle : Pc
    trying : Op V → (time : Option ℕ) → Pc  -- before `trylock`
    held : Op V → (time : Option ℕ) → Pc  -- before the test of the condition
    failing : Op V → (time : Option ℕ) → Pc  -- before the `unlock` of a failed round
    late : Op V → (time : Option ℕ) → Pc  -- before the test of the time
    entered : Op V → Pc  -- after `lock_3`, before the list is read
    loaded : Op V → Carrier → Pc  -- before the list is written, if it is
    stored : Op V → (answer : Bool) → Option V → Pc  -- before the last `unlock`
    returned : Op V → (answer : Bool) → Option V → Pc

  abbrev pub at_rest : Pc → Bool
  at_rest idle = true
  at_rest (returned op b v) = true
  at_rest _ = false

  -- After a time-out `queue_put` and `queue_get` return FALSE; `queue_empty` does not look.
  unfoldable pub timed_out : Op V → Pc
  timed_out (put v) = returned (put v) false none
  timed_out get = returned get false none
  timed_out empty = entered empty

  -- `queue_empty` waits for no time; the other two are told how long.
  abbrev pub waiting : Op V → Option ℕ → Option ℕ
  waiting (put v) time = time
  waiting get time = time
  waiting empty time = some 0

  -- One step of one thread, which may call what `may_call` allows.
  pub data Move (may_call : Op V → Bool) (q : Queue) : Pc → Queue → Pc → Type 0 where
    call :
        {p : Pc} {op : Op V} (time : Option ℕ)
        → at_rest p ≡ true
        → may_call op ≡ true
        → Move may_call q p q (trying op (waiting op time))
    take :
        {op : Op V} {time : Option ℕ}
        → q.lock ≡ 0
        → Move may_call q (trying op time) (record q { lock = 1 }) (held op time)
    busy :
        {op : Op V} {time : Option ℕ}
        → q.lock ≢ 0
        → Move may_call q (trying op time) q (late op time)
    ready :
        {op : Op V} {time : Option ℕ}
        → is_ready q op ≡ true
        → Move may_call q (held op time) q (entered op)
    unready :
        {op : Op V} {time : Option ℕ}
        → is_ready q op ≡ false
        → Move may_call q (held op time) q (failing op time)
    give_back :
        {op : Op V} {time : Option ℕ}
        → Move may_call q (failing op time) (record q { lock = 0 }) (late op time)
    again : {op : Op V} {time : Option ℕ} → Move may_call q (late op time) q (trying op time)
    time_out :
        {op : Op V} {time : Option ℕ} (t : ℕ)
        → time ≡ some t
        → Move may_call q (late op time) q (timed_out op)
    load : {op : Op V} → Move may_call q (entered op) q (loaded op q.list)
    store :
        {op : Op V} {l : Carrier}
        → Move may_call q
            (loaded op l)
            (record q { list = new_list op l q.list })
            (stored op (answer op l) (result op l))
    release :
        {op : Op V} {b : Bool} {r : Option V}
        → Move may_call q (stored op b r) (record q { lock = 0 }) (returned op b r)

  pub record System : Type 0 where
    pub q : Queue
    pub pc : ℕ → Pc

  pub data Step (may_call : Op V → Bool) (s : System) : System → Type 0 where
    pick :
        (i : ℕ) {q : Queue} {p : Pc}
        → Move may_call s.q (s.pc i) q p
        → Step may_call s (record { q = q; pc = update s.pc i p })

  -- `queue_init(max)`
  unfoldable pub queue_init : ℕ → Queue
  queue_init max = record { max = max; lock = 0; list = lib.list_new }

  pub data Reach (may_call : Op V → Bool) (max : ℕ) : System → Type 0 where
    start : Reach may_call max (record { q = queue_init max; pc = λ i. idle })
    later : {s t : System} → Reach may_call max s → Step may_call s t → Reach may_call max t
