-- ===== src/Rwlock/Stuck.antt =====
-- A reader whose `runlock` wants `rl`, and a writer who has taken `rl` for all and waits for `rwl`.
use zxlib.Prelude.{ℕ, ◌≡◌, Bool, true, false}
use zxlib.Rwlock.Moves
use zxlib.Rwlock.Moves.{
  Rwlock, Pc, System, rlock_count, rlock_first, rlock_leave, reading, runlock_enter, runlock_count,
  runlock_last, runlock_leave, wlock_enter, wlock_count, wlock_leave, wlock_wait, writing, excused,
  wunlock_start, wunlock_enter, wunlock_count, wunlock_last, wunlock_leave,
}
use zxlib.Rwlock.Totals.{in_rl, writes_first, total}
use zxlib.Rwlock.Invariant.{Inv}

-- Reads, and may want to stop.
abbrev pub is_inside : Pc → Bool
is_inside reading = true
is_inside runlock_enter = true
is_inside _ = false

record IsStuck (n i j : ℕ) (s : System) : Type 0 where
  inv : Inv n s.q s.pc
  reader : is_inside (s.pc i) ≡ true
  writer : s.pc j ≡ wlock_wait
  no_reader : total n in_rl s.pc ≡ 0
  no_first : total n writes_first s.pc ≡ 0
