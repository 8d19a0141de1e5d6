-- ===== src/Rwlock/Totals.antt =====
-- How many threads stand at certain places.
use zxlib.Prelude.{ℕ, zero, suc, ◌+◌, ◌<◌, ◌≤◌, ◌≡◌, ◌≢◌, refl, ap, sym, ◌∙◌, arith, ℕ_discrete}
use zxlib.Prelude.Family.{update}
use zxlib.Prelude.Loop.{sum_range, sum_range_ext, le-sum_range, two-le-sum_range, sum_range-le}
use zxlib.Rwlock.Moves.{
  Pc, rlock_count, rlock_first, rlock_leave, reading, runlock_enter, runlock_count, runlock_last,
  runlock_leave, wlock_count, wlock_first, wlock_leave, wlock_wait, writing, excused, wunlock_start,
  wunlock_enter, wunlock_count, wunlock_last, wunlock_leave,
}

-- Those who have taken `rl` as readers.
abbrev pub in_rl : Pc → ℕ
in_rl rlock_count = 1
in_rl rlock_first = 1
in_rl rlock_leave = 1
in_rl runlock_count = 1
in_rl runlock_last = 1
in_rl runlock_leave = 1
in_rl _ = 0

abbrev pub in_wl : Pc → ℕ
in_wl wlock_count = 1
in_wl wlock_first = 1
in_wl wlock_leave = 1
in_wl wunlock_count = 1
in_wl wunlock_last = 1
in_wl wunlock_leave = 1
in_wl _ = 0

-- Those whom `rc` counts.
abbrev pub reads : Pc → ℕ
reads rlock_first = 1
reads rlock_leave = 1
reads reading = 1
reads runlock_enter = 1
reads runlock_count = 1
reads _ = 0

-- Those whom `wc` counts.
abbrev pub writes : Pc → ℕ
writes wlock_first = 1
writes wlock_leave = 1
writes wlock_wait = 1
writes writing = 1
writes excused = 1
writes wunlock_start = 1
writes wunlock_enter = 1
writes wunlock_count = 1
writes _ = 0

abbrev pub reads_first : Pc → ℕ
reads_first rlock_first = 1
reads_first _ = 0

abbrev pub reads_last : Pc → ℕ
reads_last runlock_last = 1
reads_last _ = 0

abbrev pub writes_first : Pc → ℕ
writes_first wlock_first = 1
writes_first _ = 0

abbrev pub writes_last : Pc → ℕ
writes_last wunlock_last = 1
writes_last _ = 0

abbrev pub is_reading : Pc → ℕ
is_reading reading = 1
is_reading _ = 0

-- Those who have taken `rwl` to write.
abbrev pub in_rwl : Pc → ℕ
in_rwl writing = 1
in_rwl excused = 1
in_rwl wunlock_start = 1
in_rwl _ = 0

pub total : ℕ → (Pc → ℕ) → (ℕ → Pc) → ℕ
total n w pc = sum_range n (λ i. w (pc i))

sum_range-update :
    (n i : ℕ) (w : Pc → ℕ) (pc : ℕ → Pc) (p : Pc)
    → i < n
    → sum_range n (λ j. w (update pc i p j)) + w (pc i) ≡ sum_range n (λ j. w (pc j)) + w p
unfolding sum_range
sum_range-update zero i w pc p lt = absurd (omega arith)
sum_range-update (suc n) i w pc p lt = elim (ℕ_discrete i n) [
  | yes e ↦
      let same =
        sum_range_ext n (λ j. w (update pc i p j)) (λ j. w (pc j)) (λ j q. ground (arith, e)) in
      ground (arith, e, same)
  | no ne ↦ ground (arith, sum_range-update n i w pc p)
]

pub total-update :
    (n i : ℕ) (w : Pc → ℕ) (pc : ℕ → Pc) (p : Pc)
    → i < n
    → total n w (update pc i p) + w (pc i) ≡ total n w pc + w p
unfolding total
total-update = sum_range-update

sum_range_two_le :
    (n : ℕ) (a b c : ℕ → ℕ)
    → ((i : ℕ) → a i + b i ≤ c i)
    → sum_range n a + sum_range n b ≤ sum_range n c
unfolding sum_range
sum_range_two_le zero a b c h = omega arith
sum_range_two_le (suc n) a b c h = omega (arith, sum_range_two_le n a b c h, h n)

pub total_two_le :
    (n : ℕ) (a b c : Pc → ℕ) (pc : ℕ → Pc)
    → ((p : Pc) → a p + b p ≤ c p)
    → total n a pc + total n b pc ≤ total n c pc
unfolding total
total_two_le n a b c pc h =
    sum_range_two_le n (λ i. a (pc i)) (λ i. b (pc i)) (λ i. c (pc i)) (λ i. h (pc i))

pub le-total : (n i : ℕ) (w : Pc → ℕ) (pc : ℕ → Pc) → i < n → w (pc i) ≤ total n w pc
unfolding total
le-total n i w pc lt = le-sum_range n i (λ j. w (pc j)) lt

pub two-le-total :
    (n i j : ℕ) (w : Pc → ℕ) (pc : ℕ → Pc)
    → i < n
    → j < n
    → i ≢ j
    → 1 ≤ w (pc i)
    → 1 ≤ w (pc j)
    → 2 ≤ total n w pc
unfolding total
two-le-total n i j w pc p q ne a b = two-le-sum_range n i j 1 (λ k. w (pc k)) p q ne a b

pub total_bound : (n : ℕ) (w : Pc → ℕ) (pc : ℕ → Pc) → ((p : Pc) → w p ≤ 1) → total n w pc ≤ n
unfolding total
total_bound n w pc h = omega (arith, sum_range-le n 1 (λ i. w (pc i)) (λ i p. h (pc i)))

sum_range_none : (n : ℕ) (f : ℕ → ℕ) → ((i : ℕ) → i < n → f i ≡ 0) → sum_range n f ≡ 0
unfolding sum_range
sum_range_none zero f h = refl
sum_range_none (suc n) f h =
    omega (arith, sum_range_none n f (λ i p. h i (omega arith)), h n (omega arith))

pub total_none :
    (n : ℕ) (w : Pc → ℕ) (pc : ℕ → Pc) → ((i : ℕ) → i < n → w (pc i) ≡ 0) → total n w pc ≡ 0
unfolding total
total_none n w pc h = sum_range_none n (λ i. w (pc i)) h

-- The same where it is known where the thread stood.
pub total_changed :
    (n i : ℕ) (w : Pc → ℕ) (pc : ℕ → Pc) (p p' : Pc)
    → i < n
    → pc i ≡ p
    → total n w (update pc i p') + w p ≡ total n w pc + w p'
total_changed n i w pc p p' lt e =
    ap (λ (r : Pc). total n w (update pc i p') + w r) (sym e) ∙ total-update n i w pc p' lt

pub stands : (n i : ℕ) (w : Pc → ℕ) (pc : ℕ → Pc) (p : Pc) → i < n → pc i ≡ p → w p ≤ total n w pc
stands n i w pc p lt e = rw (← e) (le-total n i w pc lt)
