-- ===== src/Rwlock/Tests.antt =====
-- Two threads.
use zxlib.Prelude.{zero, suc, ◌≡◌, ◌≢◌, refl, arith, false}
use zxlib.Rwlock.Moves
use zxlib.Rwlock.Moves.{Pc, System, Step, pick, Run, start, later, all_idle, reading, writing}
use zxlib.Rwlock.Invariant.{readers_and_writers}

record Trace (s : System) : Type 0 where
  last : System
  run : Run false 2 s last

-- The first thread reads.
abbrev one_reads : Trace all_idle
one_reads = record {
  last = _;
  run =
      later
        (later
          (later
            (later (later start (pick 0 (omega arith) (Moves.rlock refl)))
              (pick 0 (omega arith) (Moves.rlock_take refl)))
            (pick 0 (omega arith) (Moves.rlock_one refl)))
          (pick 0 (omega arith) (Moves.rlock_all refl)))
        (pick 0 (omega arith) Moves.rlock_give);
}

-- Then the second waits to write.
abbrev one_waits : Trace all_idle
one_waits = record {
  last = _;
  run =
      later
        (later
          (later
            (later (later one_reads.run (pick 1 (omega arith) (Moves.wlock refl)))
              (pick 1 (omega arith) (Moves.wlock_take refl)))
            (pick 1 (omega arith) (Moves.wlock_one refl)))
          (pick 1 (omega arith) (Moves.wlock_all refl)))
        (pick 1 (omega arith) Moves.wlock_give);
}

-- Then the first wants to stop.
abbrev one_stops : Trace one_waits.last
one_stops = record { last = _; run = later start (pick 0 (omega arith) (Moves.runlock refl)) }

-- The first thread writes.
abbrev one_writes : Trace all_idle
one_writes = record {
  last = _;
  run =
      later
        (later
          (later
            (later
              (later (later start (pick 0 (omega arith) (Moves.wlock refl)))
                (pick 0 (omega arith) (Moves.wlock_take refl)))
              (pick 0 (omega arith) (Moves.wlock_one refl)))
            (pick 0 (omega arith) (Moves.wlock_all refl)))
          (pick 0 (omega arith) Moves.wlock_give))
        (pick 0 (omega arith) (Moves.wlock_in refl));
}

readers_and_writers_example :
    (one_writes.last.pc 1 ≢ reading) × (one_writes.last.pc 1 ≡ writing → zero ≡ suc zero)
readers_and_writers_example =
    readers_and_writers (omega arith) one_writes.run 0 1 (omega arith) (omega arith) refl
