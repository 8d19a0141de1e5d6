-- ===== src/Transqueue/FirstLost.antt =====
-- The receiver at a unit whose first packet is lost.
use zxlib.Prelude.{
  none, All, all_more, Bool-cases, ℕ, zero, suc, ◌<◌, ◌≡◌, ◌≢◌, inl, inr, refl, ap, ◌∙◌, arith,
  Bool, true, false, Option, some, List, [], ◌∷◌, ◌++◌, ◌==◌, if◌then◌else◌, Any, here, there,
  Any-append-cases,
}
use zxlib.Package.{Package}
use zxlib.UnitCode.Cell.{PackageUnit, store}
use zxlib.UnitCode.Recovery.{unit_decode_total}
use zxlib.Transqueue.Receive.{
  Receiver, Collected, as_int, has_cell, collect, gather, is_next, restore, transqueue_recv,
}
use zxlib.Package.Words.{package_get}
use zxlib.Transqueue.Deliver.{outcome, handed, deliver_lem}
use zxlib.Transqueue.Restore.{keep_inside, restored, restore_lem}
use zxlib.Transqueue.Order.{old_id, entered, entered_q}

outcome_after :
    (b c : Bool) (p : Package)
    → 0 < p.code.num
    → Any (λ (p : Package). p.code.num ≡ 0) (if b then (if c then p ∷ [] else []) else [])
    → ⊥
outcome_after true true p lt (here e) = omega arith
outcome_after true true p lt (there h) = elim h [ ]
outcome_after true false p lt h = elim h [ ]
outcome_after false c p lt h = elim h [ ]

-- No packet with number zero is among those handed over from number one on.
handed_after :
    (id m n : ℕ) (t : PackageUnit) → Any (λ p. p.code.num ≡ 0) (handed id (suc m) n t) → ⊥
unfolding handed outcome
handed_after id m zero t h = elim h [ ]
handed_after id m (suc n) t h =
    elim (Any-append-cases (λ p. p.code.num ≡ 0) (handed id (suc m) n t) _ h) [
      | inl a ↦ handed_after id m n t a
      | inr a ↦ outcome_after _ _ _ (omega arith) a
    ]

-- What arrives has the coordinates of cells.
abbrev pub AreInside : List (Option Package) → Type 0
AreInside fq =
    All (λ (a : Option Package). (raw : Package) → a ≡ some raw → has_cell (package_get raw) ≡ true)
      fq

collect_total :
    (id : ℕ) (u : PackageUnit) (fq : List (Option Package))
    → AreInside fq
    → (c : Collected) × (collect id u fq ≡ some c)
unfolding collect
collect_total id u [] h = ((u, none, []), refl)
collect_total id u (none ∷ fq) h = ((u, none, fq), refl)
collect_total id u (some raw ∷ fq) (all_more inside h) =
    let p = package_get raw in
    let w = store u p.code.i0 p.code.i1 p.code.i2 p in
    let e = keep_inside u p (inside raw refl) in
    elim (Bool-cases (p.code.id == id)) [
      | inr other ↦ ((u, some p, fq), rw (other, collect) refl)
      | inl same ↦ elim (Bool-cases (p.code.num == 511)) [
        | inl last ↦ ((w, none, fq), rw (same, e, last, collect) refl)
        | inr more ↦ let (c, g) = collect_total id w fq h in (c, rw (same, e, more, collect) g)
      ]
    ]

gather_total :
    (u : PackageUnit) (p : Package) (fq : List (Option Package))
    → has_cell p ≡ true
    → AreInside fq
    → (c : Collected) × (gather u p fq ≡ some c)
unfolding gather
gather_total u p fq inside h =
    let (c, g) = collect_total (as_int p.code.id) (store u p.code.i0 p.code.i1 p.code.i2 p) fq h in
    (c, rw (keep_inside u p inside, gather) g)

recv_other_unit :
    (s : Receiver) (p : Package) (fq : List (Option Package))
    → as_int p.code.id ≢ old_id s
    → p.code.num ≢ 0
    → transqueue_recv s p fq ≡ restore (entered s p) 0 p fq
unfolding transqueue_recv
recv_other_unit s p fq a b = rw (not_next a b, other a) refl
  where
    not_next :
        as_int p.code.id ≢ old_id s
        → p.code.num ≢ 0
        → is_next (as_int p.code.id) (old_id s) p.code.num s.number_old ≡ false
    not_next a b = ground arith

    other : as_int p.code.id ≢ old_id s → (as_int p.code.id == old_id s) ≡ false
    other a = ground arith

-- When the first packet to come of another unit is not its packet number zero, and it and what
-- arrives after it stand inside the unit, the round ends, but what it adds to the queue starts after
-- number zero: packet zero is never handed over, not even if `unit_decode` has restored it.
pub transqueue_recv-first_lost :
    (s : Receiver) (p : Package) (fq : List (Option Package))
    → as_int p.code.id ≢ old_id s
    → p.code.num ≢ 0
    → has_cell p ≡ true
    → AreInside fq
    → (t : Receiver) × (rest : List (Option Package)) × (more : List Package) × (transqueue_recv s p
          fq
        ≡ some (t, rest))
      × (t.q ≡ s.q ++ more)
      × (Any (λ (q : Package). q.code.num ≡ 0) more → ⊥)
transqueue_recv-first_lost s p fq a b inside all =
    let ((u, held, rest), g) = gather_total (entered s p).u p fq inside all in
    let (result, t, runs, zero_iff, kept) = unit_decode_total u in
    (
      restored (entered s p) 0 p held t,
      rest,
      handed (as_int p.code.id) 1 342 t,
      recv_other_unit s p fq a b ∙ restore_lem (entered s p) 0 p fq result t b g runs,
      deliver_lem (as_int p.code.id) 0 t (entered s p).q
          ∙ ap (λ q. q ++ handed (as_int p.code.id) 1 342 t) (entered_q s p),
      handed_after (as_int p.code.id) 0 342 t,
    )
