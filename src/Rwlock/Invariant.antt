-- ===== src/Rwlock/Invariant.antt =====
-- What the fields of the lock say of the threads, while no writer uses `disable_rwlock`.
use zxlib.Prelude.{
  ℕ, ℕ_discrete, ◌+◌, ◌^◌, ◌<◌, ◌≤◌, ◌≡◌, ◌≢◌, refl, arith, false, ◌==◌, if◌then◌else◌,
}
use zxlib.Prelude.Family.{update}
use zxlib.Rwlock.Moves
use zxlib.Rwlock.Moves.{
  Rwlock, add_short, sub_short, Pc, Move, System, Step, pick, Run, start, later, all_idle, idle,
  rlock_enter, rlock_count, rlock_first, rlock_leave, reading, runlock_enter, runlock_count,
  runlock_last, runlock_leave, wlock_enter, wlock_count, wlock_first, wlock_leave, wlock_wait,
  writing, excused, wunlock_start, wunlock_enter, wunlock_count, wunlock_last, wunlock_leave,
}
use zxlib.Rwlock.Guards.{guard}
use zxlib.Rwlock.Totals.{
  in_rl, in_wl, reads, writes, reads_first, reads_last, writes_first, writes_last, is_reading,
  in_rwl, total, total_changed, stands, total_two_le, two-le-total, total_bound, total_none,
}

-- 1 where the number is not 0.
abbrev pub some_of : ℕ → ℕ
some_of c = if c == 0 then 0 else 1

-- Those who are about to count `rc` up.
abbrev counts : Pc → ℕ
counts rlock_count = 1
counts _ = 0

-- The first thread that counts a number up takes a further lock for all, and the last gives it back:
-- that lock is taken by one who holds it alone, by all who are counted once the first has taken it,
-- or by the last who has yet to give it back.
pub record Inv (n : ℕ) (q : Rwlock) (pc : ℕ → Pc) : Type 0 where
  pub enabled : q.disable ≡ 0
  pub wl_owned : total n in_wl pc ≡ q.wl
  pub rc_counts : total n reads pc ≡ q.rc
  pub wc_counts : total n writes pc ≡ q.wc
  pub rl_owned :
      q.rl + total n writes_first pc ≡ total n in_rl pc + some_of q.wc + total n writes_last pc
  pub rwl_owned :
      q.rwl + total n reads_first pc ≡ total n in_rwl pc + some_of q.rc + total n reads_last pc
  pub first_alone : 0 < total n reads_first pc → q.rc ≤ 1
  pub bits : (q.rl ≤ 1) × (q.wl ≤ 1) × (q.rwl ≤ 1)

-- What holds of the totals wherever the threads stand.
pub record Totals (n : ℕ) (pc : ℕ → Pc) : Type 0 where
  pub in_rl_parts : total n reads_first pc + total n reads_last pc ≤ total n in_rl pc
  pub in_rl_counts : total n reads_first pc + total n counts pc ≤ total n in_rl pc
  pub in_wl_parts : total n writes_first pc + total n writes_last pc ≤ total n in_wl pc
  pub reads_parts : total n reads_first pc + total n is_reading pc ≤ total n reads pc
  pub writes_parts : total n writes_first pc + total n in_rwl pc ≤ total n writes pc
  pub reads_bound : total n reads pc ≤ n
  pub writes_bound : total n writes pc ≤ n

pub totals : (n : ℕ) (pc : ℕ → Pc) → Totals n pc
totals n pc = record {
  in_rl_parts = total_two_le n reads_first reads_last in_rl pc (λ p. ground arith);
  in_rl_counts = total_two_le n reads_first counts in_rl pc (λ p. ground arith);
  in_wl_parts = total_two_le n writes_first writes_last in_wl pc (λ p. ground arith);
  reads_parts = total_two_le n reads_first is_reading reads pc (λ p. ground arith);
  writes_parts = total_two_le n writes_first in_rwl writes pc (λ p. ground arith);
  reads_bound = total_bound n reads pc (λ p. ground arith);
  writes_bound = total_bound n writes pc (λ p. ground arith);
}

module _ {n : ℕ} (small : n < 2 ^ 16) {q : Rwlock} {pc : ℕ → Pc} (inv : Inv n q pc) (i : ℕ)
    (lt : i < n) where
  open inv use {enabled, wl_owned, rc_counts, wc_counts, rl_owned, rwl_owned, first_alone, bits}

  changed :
      (w : Pc → ℕ) (p p' : Pc) → pc i ≡ p → total n w (update pc i p') + w p ≡ total n w pc + w p'
  changed w p p' e = total_changed n i w pc p p' lt e

  at_least : (w : Pc → ℕ) (p : Pc) → pc i ≡ p → w p ≤ total n w pc
  at_least w p e = stands n i w pc p lt e

  Move-enabled : {p p' : Pc} {q' : Rwlock} → Move false q p q' p' → q'.disable ≡ 0
  Move-enabled (Moves.rlock d) = d
  Move-enabled mv = ground (arith, guard mv, enabled)

  Move-wl_owned :
      {p p' : Pc} {q' : Rwlock}
      → Move false q p q' p'
      → pc i ≡ p
      → (total n in_wl (update pc i p') ≡ q'.wl) × (q'.wl ≤ 1)
  Move-wl_owned (Moves.rlock d) e = ground (arith, changed in_wl idle rlock_enter e, wl_owned, bits)
  Move-wl_owned {p} {p'} mv e =
      ground (arith, guard mv, changed in_wl p p' e, wl_owned, at_least in_wl p e, bits, enabled)

  Move-rc_counts :
      {p p' : Pc} {q' : Rwlock}
      → Move false q p q' p'
      → pc i ≡ p
      → total n reads (update pc i p') ≡ q'.rc
  Move-rc_counts (Moves.rlock d) e = ground (arith, changed reads idle rlock_enter e, rc_counts)
  Move-rc_counts {p} {p'} mv e = ground (
    arith,
    guard mv,
    changed reads p p' e,
    rc_counts,
    at_least reads p e,
    enabled,
    small,
    (totals n (update pc i p')).reads_bound,
  )

  Move-wc_counts :
      {p p' : Pc} {q' : Rwlock}
      → Move false q p q' p'
      → pc i ≡ p
      → total n writes (update pc i p') ≡ q'.wc
  Move-wc_counts (Moves.rlock d) e = ground (arith, changed writes idle rlock_enter e, wc_counts)
  Move-wc_counts {p} {p'} mv e = ground (
    arith,
    guard mv,
    changed writes p p' e,
    wc_counts,
    at_least writes p e,
    enabled,
    small,
    (totals n (update pc i p')).writes_bound,
  )

  Move-first_alone :
      {p p' : Pc} {q' : Rwlock}
      → Move false q p q' p'
      → pc i ≡ p
      → 0 < total n reads_first (update pc i p')
      → q'.rc ≤ 1
  Move-first_alone (Moves.rlock d) e f =
      ground (arith, changed reads_first idle rlock_enter e, first_alone)
  Move-first_alone {p} {p'} mv e f = ground (
    arith,
    guard mv,
    changed reads_first p p' e,
    first_alone,
    at_least counts p e,
    rl_owned,
    bits,
    enabled,
    (totals n pc).in_rl_counts,
    (totals n pc).in_wl_parts,
    (totals n pc).writes_parts,
    wl_owned,
    wc_counts,
    rc_counts,
    at_least reads p e,
    small,
    (totals n pc).reads_bound,
  )

  Move-rl_owned :
      {p p' : Pc} {q' : Rwlock}
      → Move false q p q' p'
      → pc i ≡ p
      → (q'.rl + total n writes_first (update pc i p')
          ≡ total n in_rl (update pc i p') + some_of q'.wc + total n writes_last (update pc i p'))
        × (q'.rl ≤ 1)
  Move-rl_owned (Moves.rlock d) e = ground (
    arith,
    changed writes_first idle rlock_enter e,
    changed in_rl idle rlock_enter e,
    changed writes_last idle rlock_enter e,
    rl_owned,
    bits,
  )
  Move-rl_owned {p} {p'} mv e = ground (
    arith,
    guard mv,
    changed writes_first p p' e,
    changed in_rl p p' e,
    changed writes_last p p' e,
    rl_owned,
    bits,
    enabled,
    (totals n pc).in_wl_parts,
    (totals n pc).writes_parts,
    wl_owned,
    wc_counts,
    at_least writes p e,
    at_least in_rl p e,
    at_least writes_last p e,
    small,
    (totals n (update pc i p')).writes_bound,
    changed writes p p' e,
  )

  Move-rwl_owned :
      {p p' : Pc} {q' : Rwlock}
      → Move false q p q' p'
      → pc i ≡ p
      → (q'.rwl + total n reads_first (update pc i p')
          ≡ total n in_rwl (update pc i p') + some_of q'.rc + total n reads_last (update pc i p'))
        × (q'.rwl ≤ 1)
  Move-rwl_owned (Moves.rlock d) e = ground (
    arith,
    changed reads_first idle rlock_enter e,
    changed in_rwl idle rlock_enter e,
    changed reads_last idle rlock_enter e,
    rwl_owned,
    bits,
  )
  Move-rwl_owned {p} {p'} mv e = ground (
    arith,
    guard mv,
    changed reads_first p p' e,
    changed in_rwl p p' e,
    changed reads_last p p' e,
    rwl_owned,
    rl_owned,
    bits,
    enabled,
    (totals n pc).in_rl_parts,
    (totals n pc).in_wl_parts,
    (totals n pc).writes_parts,
    (totals n pc).reads_parts,
    wl_owned,
    rc_counts,
    wc_counts,
    at_least reads p e,
    at_least in_rwl p e,
    at_least reads_last p e,
    small,
    (totals n (update pc i p')).reads_bound,
    changed reads p p' e,
  )

  pub Move-Inv : {p' : Pc} {q' : Rwlock} → Move false q (pc i) q' p' → Inv n q' (update pc i p')
  Move-Inv mv = record {
    enabled = Move-enabled mv;
    wl_owned = (Move-wl_owned mv refl).0;
    rc_counts = Move-rc_counts mv refl;
    wc_counts = Move-wc_counts mv refl;
    rl_owned = (Move-rl_owned mv refl).0;
    rwl_owned = (Move-rwl_owned mv refl).0;
    first_alone = Move-first_alone mv refl;
    bits = ((Move-rl_owned mv refl).1, (Move-wl_owned mv refl).1, (Move-rwl_owned mv refl).1);
  }

-- All idle, every total is 0.
all_idle-Inv : (n : ℕ) → Inv n all_idle.q all_idle.pc
all_idle-Inv n = record {
  enabled = refl;
  wl_owned = none_at in_wl refl;
  rc_counts = none_at reads refl;
  wc_counts = none_at writes refl;
  rl_owned = omega (arith, none_at writes_first refl, none_at in_rl refl, none_at writes_last refl);
  rwl_owned = omega (arith, none_at reads_first refl, none_at in_rwl refl, none_at reads_last refl);
  first_alone = λ p. omega arith;
  bits = (omega arith, omega arith, omega arith);
}
  where
    none_at : (w : Pc → ℕ) → w idle ≡ 0 → total n w (λ i. idle) ≡ 0
    none_at w e = total_none n w (λ i. idle) (λ i p. e)

pub Run-Inv : {n : ℕ} {s : System} → n < 2 ^ 16 → Run false n all_idle s → Inv n s.q s.pc
Run-Inv {n} small start = all_idle-Inv n
Run-Inv small (later r (pick i lt mv)) = Move-Inv small (Run-Inv small r) i lt mv

-- Of fewer than 2 ^ 16 threads that read and write under one lock, in any order and without
-- `disable_rwlock`: while one writes, no other writes and none reads.
pub readers_and_writers :
    {n : ℕ} {s : System}
    → n < 2 ^ 16
    → Run false n all_idle s
    → (i j : ℕ) → i < n
    → j < n
    → s.pc i ≡ writing
    → (s.pc j ≢ reading) × (s.pc j ≡ writing → i ≡ j)
readers_and_writers {n} {s} small r i j p q w = (
  λ reads_too. ground (
    arith,
    inv.rwl_owned,
    inv.rc_counts,
    inv.first_alone,
    inv.bits,
    t.reads_parts,
    stands n i in_rwl s.pc writing p w,
    stands n j is_reading s.pc reading q reads_too,
  ),
  λ writes_too. elim (ℕ_discrete i j) [
    | yes e ↦ e
    | no ne ↦ absurd (
        ground (
          arith,
          two-le-total n i j in_rwl s.pc p q ne (here i w) (here j writes_too),
          inv.rwl_owned,
          inv.first_alone,
          inv.rc_counts,
          inv.bits,
          t.reads_parts,
        ))
  ],
)
  where
    inv : Inv n s.q s.pc
    inv = Run-Inv small r

    t : Totals n s.pc
    t = totals n s.pc

    here : (k : ℕ) → s.pc k ≡ writing → 1 ≤ in_rwl (s.pc k)
    here k e = rw e (omega arith)
