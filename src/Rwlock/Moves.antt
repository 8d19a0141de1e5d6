-- ===== src/Rwlock/Moves.antt =====
-- Threads that read and write under one `rwlock`, interleaved in any order, one access of the shared
-- memory at a time. A thread unlocks what it has locked, and does not lock again before. Where a
-- thread waits in `lock` for a lock that is taken, its failing attempts change nothing and are no
-- moves.
use zxlib.Prelude.{ℕ, ◌+◌, ◌-◌, ◌%◌, ◌^◌, ◌<◌, ◌≡◌, ◌≢◌, Bool, true}
use zxlib.Prelude.Family.{update}

pub record Rwlock : Type 0 where
  pub disable : ℕ
  pub rl : ℕ
  pub wl : ℕ
  pub rwl : ℕ
  pub rc : ℕ
  pub wc : ℕ

-- `__sync_fetch_and_add` and `__sync_fetch_and_sub` of an unsigned short.
abbrev pub add_short : ℕ → ℕ
add_short c = (c + 1) % 2 ^ 16

abbrev pub sub_short : ℕ → ℕ
sub_short c = (c + (2 ^ 16 - 1)) % 2 ^ 16

-- Where a thread stands.
pub data Pc : Type 0 where
  idle : Pc
  rlock_enter : Pc  -- before `lock(rl)`
  rlock_count : Pc  -- before `rc` is counted up
  rlock_first : Pc  -- before `lock(rwl)`
  rlock_leave : Pc  -- before `unlock(rl)`
  reading : Pc
  runlock_enter : Pc  -- before `lock(rl)`
  runlock_count : Pc  -- before `rc` is counted down
  runlock_last : Pc  -- before `unlock(rwl)`
  runlock_leave : Pc  -- before `unlock(rl)`
  wlock_enter : Pc  -- before `lock(wl)`
  wlock_count : Pc  -- before `wc` is counted up
  wlock_first : Pc  -- before `lock(rl)`
  wlock_leave : Pc  -- before `unlock(wl)`
  wlock_wait : Pc  -- before `lock(rwl)`
  writing : Pc
  excused : Pc  -- writes in the body of `disable_rwlock`
  wunlock_start : Pc  -- before `unlock(rwl)`
  wunlock_enter : Pc  -- before `lock(wl)`
  wunlock_count : Pc  -- before `wc` is counted down
  wunlock_last : Pc  -- before `unlock(rl)`
  wunlock_leave : Pc  -- before `unlock(wl)`

-- One move of one thread. `disables` says whether writers use `disable_rwlock`.
pub data Move (disables : Bool) (q : Rwlock) : Pc → Rwlock → Pc → Type 0 where
  rlock : q.disable ≡ 0 → Move disables q idle q rlock_enter
  rlock_pass : q.disable ≢ 0 → Move disables q idle q reading
  rlock_take : q.rl ≡ 0 → Move disables q rlock_enter (record q { rl = 1 }) rlock_count
  rlock_one : q.rc ≡ 0 → Move disables q rlock_count (record q { rc = add_short q.rc }) rlock_first
  rlock_more : q.rc ≢ 0 → Move disables q rlock_count (record q { rc = add_short q.rc }) rlock_leave
  rlock_all : q.rwl ≡ 0 → Move disables q rlock_first (record q { rwl = 1 }) rlock_leave
  rlock_give : Move disables q rlock_leave (record q { rl = 0 }) reading
  runlock : q.disable ≡ 0 → Move disables q reading q runlock_enter
  runlock_pass : q.disable ≢ 0 → Move disables q reading q idle
  runlock_take : q.rl ≡ 0 → Move disables q runlock_enter (record q { rl = 1 }) runlock_count
  runlock_one :
      q.rc ≡ 1 → Move disables q runlock_count (record q { rc = sub_short q.rc }) runlock_last
  runlock_more :
      q.rc ≢ 1 → Move disables q runlock_count (record q { rc = sub_short q.rc }) runlock_leave
  runlock_all : Move disables q runlock_last (record q { rwl = 0 }) runlock_leave
  runlock_give : Move disables q runlock_leave (record q { rl = 0 }) idle
  wlock : q.disable ≡ 0 → Move disables q idle q wlock_enter
  wlock_pass : q.disable ≢ 0 → Move disables q idle q writing
  wlock_take : q.wl ≡ 0 → Move disables q wlock_enter (record q { wl = 1 }) wlock_count
  wlock_one : q.wc ≡ 0 → Move disables q wlock_count (record q { wc = add_short q.wc }) wlock_first
  wlock_more : q.wc ≢ 0 → Move disables q wlock_count (record q { wc = add_short q.wc }) wlock_leave
  wlock_all : q.rl ≡ 0 → Move disables q wlock_first (record q { rl = 1 }) wlock_leave
  wlock_give : Move disables q wlock_leave (record q { wl = 0 }) wlock_wait
  wlock_in : q.rwl ≡ 0 → Move disables q wlock_wait (record q { rwl = 1 }) writing
  disable_on : disables ≡ true → Move disables q writing (record q { disable = 1 }) excused
  disable_off : Move disables q excused (record q { disable = 0 }) writing
  wunlock : q.disable ≡ 0 → Move disables q writing q wunlock_start
  wunlock_pass : q.disable ≢ 0 → Move disables q writing q idle
  wunlock_out : Move disables q wunlock_start (record q { rwl = 0 }) wunlock_enter
  wunlock_take : q.wl ≡ 0 → Move disables q wunlock_enter (record q { wl = 1 }) wunlock_count
  wunlock_one :
      q.wc ≡ 1 → Move disables q wunlock_count (record q { wc = sub_short q.wc }) wunlock_last
  wunlock_more :
      q.wc ≢ 1 → Move disables q wunlock_count (record q { wc = sub_short q.wc }) wunlock_leave
  wunlock_all : Move disables q wunlock_last (record q { rl = 0 }) wunlock_leave
  wunlock_give : Move disables q wunlock_leave (record q { wl = 0 }) idle

pub record System : Type 0 where
  pub q : Rwlock
  pub pc : ℕ → Pc

-- A move of one of the threads below `n`.
pub data Step (disables : Bool) (n : ℕ) (s : System) : System → Type 0 where
  pick :
      (i : ℕ) {q : Rwlock} {p : Pc}
      → i < n
      → Move disables s.q (s.pc i) q p
      → Step disables n s (record { q = q; pc = update s.pc i p })

abbrev pub free : Rwlock
free = record { disable = 0; rl = 0; wl = 0; rwl = 0; rc = 0; wc = 0 }

-- What can become of `s`.
pub data Run (disables : Bool) (n : ℕ) (s : System) : System → Type 0 where
  start : Run disables n s s
  later : {t u : System} → Run disables n s t → Step disables n t u → Run disables n s u

abbrev pub all_idle : System
all_idle = record { q = free; pc = λ i. idle }
