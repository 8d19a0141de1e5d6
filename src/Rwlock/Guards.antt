-- ===== src/Rwlock/Guards.antt =====
-- What a move finds.
use zxlib.Prelude.{◌≡◌, ◌≢◌, Bool, true}
use zxlib.Rwlock.Moves
use zxlib.Rwlock.Moves.{
  Rwlock, add_short, sub_short, Pc, Move, System, Step, pick, Run, start, later, all_idle, idle,
  rlock_enter, rlock_count, rlock_first, rlock_leave, reading, runlock_enter, runlock_count,
  runlock_last, runlock_leave, wlock_enter, wlock_count, wlock_first, wlock_leave, wlock_wait,
  writing, excused, wunlock_start, wunlock_enter, wunlock_count, wunlock_last, wunlock_leave,
}

abbrev pub Guard : {disables : Bool} {q q' : Rwlock} {p p' : Pc} → Move disables q p q' p' → Type 0
Guard {q} (Moves.rlock_pass d) = (q.disable ≢ 0)
Guard {q} (Moves.runlock_pass d) = (q.disable ≢ 0)
Guard {q} (Moves.wlock_pass d) = (q.disable ≢ 0)
Guard {q} (Moves.wunlock_pass d) = (q.disable ≢ 0)
Guard {q} (Moves.rlock_take f) = (q.rl ≡ 0)
Guard {q} (Moves.rlock_one f) = (q.rc ≡ 0)
Guard {q} (Moves.rlock_more f) = (q.rc ≢ 0)
Guard {q} (Moves.rlock_all f) = (q.rwl ≡ 0)
Guard {q} (Moves.runlock_take f) = (q.rl ≡ 0)
Guard {q} (Moves.runlock_one f) = (q.rc ≡ 1)
Guard {q} (Moves.runlock_more f) = (q.rc ≢ 1)
Guard {q} (Moves.wlock_take f) = (q.wl ≡ 0)
Guard {q} (Moves.wlock_one f) = (q.wc ≡ 0)
Guard {q} (Moves.wlock_more f) = (q.wc ≢ 0)
Guard {q} (Moves.wlock_all f) = (q.rl ≡ 0)
Guard {q} (Moves.wlock_in f) = (q.rwl ≡ 0)
Guard {q} (Moves.wunlock_take f) = (q.wl ≡ 0)
Guard {q} (Moves.wunlock_one f) = (q.wc ≡ 1)
Guard {q} (Moves.wunlock_more f) = (q.wc ≢ 1)
Guard {disables} (Moves.disable_on d) = (disables ≡ true)
Guard _ = Unit

pub guard : {disables : Bool} {q q' : Rwlock} {p p' : Pc} (mv : Move disables q p q' p') → Guard mv
guard (Moves.rlock_pass d) = d
guard (Moves.runlock_pass d) = d
guard (Moves.wlock_pass d) = d
guard (Moves.wunlock_pass d) = d
guard (Moves.rlock_take f) = f
guard (Moves.rlock_one f) = f
guard (Moves.rlock_more f) = f
guard (Moves.rlock_all f) = f
guard (Moves.runlock_take f) = f
guard (Moves.runlock_one f) = f
guard (Moves.runlock_more f) = f
guard (Moves.wlock_take f) = f
guard (Moves.wlock_one f) = f
guard (Moves.wlock_more f) = f
guard (Moves.wlock_all f) = f
guard (Moves.wlock_in f) = f
guard (Moves.wunlock_take f) = f
guard (Moves.wunlock_one f) = f
guard (Moves.wunlock_more f) = f
guard (Moves.disable_on d) = d
guard _ = tt
