-- ===== src/UnitCode/Decode.antt =====
-- `unit_decode`: that it ends, what it repairs, and what its result tells.
use zxlib.Prelude.{
  ℕ, zero, suc, ◌<◌, ◌≤◌, ◌≡◌, inl, inr, refl, ◌∙◌, arith, true, false, some, Bool-cases,
}
use zxlib.Prelude.Loop.{sum_range, sum_range-le}
use zxlib.UnitCode.{Marks, marks, Sweep, decode_pass, decode_loop, unit_decode}
use zxlib.UnitCode.Cell.{PackageUnit, Axis}
use zxlib.UnitCode.Repairs.{Repairs, Repairs-trans, count_lost, lost}
use zxlib.UnitCode.Passes.{IsMarked, IsMarked-Repairs, IsNotSingle, IsFull, Passed}
use zxlib.UnitCode.Rounds.{start, EveryLine, decode_pass-Passed}
use zxlib.UnitCode.Marking.{marks-IsMarked}

-- What the do loop leaves when it ends.
pub record IsDecoded (u : PackageUnit) (result : ℕ) (t : PackageUnit) : Type 0 where
  pub reach : Repairs u t
  pub single : (d : Axis) (a b : ℕ) → a < 8 → b < 8 → IsNotSingle t d a b
  pub zero : result ≡ 0 → (d : Axis) (a b : ℕ) → a < 8 → b < 8 → IsFull t d a b
  pub full : ((d : Axis) (a b : ℕ) → a < 8 → b < 8 → IsFull t d a b) → result ≡ 0

-- The last round.
last-IsDecoded :
    (u : PackageUnit) (s : Sweep)
    → Passed EveryLine (start u) s
    → s.check ≡ false
    → IsDecoded u s.result s.cells
last-IsDecoded u s f e = record {
  reach = f.reach;
  single = λ d a b p q. f.single e d a b (p, q);
  zero = λ z d a b p q. f.clean e z d a b (p, q);
  full = λ h. (f.idle (rw (f.calm e).1 at h)).0;
}

IsDecoded-Repairs :
    {u s : PackageUnit} {result : ℕ} {t : PackageUnit}
    → Repairs u s
    → IsDecoded s result t
    → IsDecoded u result t
IsDecoded-Repairs r h = record {
  reach = Repairs-trans r h.reach;
  single = h.single;
  zero = h.zero;
  full = h.full;
}

decode_loop_again :
    (fuel : ℕ) (m : Marks) (u : PackageUnit)
    → (decode_pass m u).check ≡ true
    → decode_loop (suc fuel) m u ≡ decode_loop fuel m (decode_pass m u).cells
unfolding decode_loop
decode_loop_again fuel m u e = rw (e, decode_loop) refl

decode_loop_end :
    (fuel : ℕ) (m : Marks) (u : PackageUnit)
    → (decode_pass m u).check ≡ false
    → decode_loop (suc fuel) m u ≡ some ((decode_pass m u).result, (decode_pass m u).cells)
unfolding decode_loop
decode_loop_end fuel m u e = rw (e, decode_loop) refl

-- A round that repairs leaves fewer lost packets: with more rounds than there are lost packets
-- the loop ends by its test.
decode_loop-IsDecoded :
    (fuel : ℕ) (m : Marks) (u : PackageUnit)
    → count_lost u < fuel
    → IsMarked m u
    → (result : ℕ) × (t : PackageUnit) × (decode_loop fuel m u ≡ some (result, t))
      × IsDecoded u result t
decode_loop-IsDecoded zero m u lt marked = absurd (omega arith)
decode_loop-IsDecoded (suc fuel) m u lt marked = elim (Bool-cases s.check) [
  | inl e ↦
      let fewer = less e in
      let (result, t, runs, done) =
        decode_loop-IsDecoded fuel m s.cells (omega arith) (IsMarked-Repairs m marked pass.reach) in
      (result, t, decode_loop_again fuel m u e ∙ runs, IsDecoded-Repairs pass.reach done)
  | inr e ↦ (s.result, s.cells, decode_loop_end fuel m u e, last-IsDecoded u s pass e)
]
  where
    s : Sweep
    s = decode_pass m u

    pass : Passed EveryLine (start u) s
    pass = decode_pass-Passed m u marked

    less : s.check ≡ true → count_lost s.cells < count_lost u
    less e = elim (pass.busy e) [ inl f ↦ absurd (cc f) | inr h ↦ h ]

pub count_lost-le : (u : PackageUnit) → count_lost u ≤ 512
unfolding count_lost
count_lost-le u =
    sum_range-le 8 64 (λ i. sum_range 8 (λ j. sum_range 8 (λ k. lost (u i j k))))
      λ i _.
        sum_range-le 8 8 (λ j. sum_range 8 (λ k. lost (u i j k)))
          λ j _. sum_range-le 8 1 (λ k. lost (u i j k)) λ k _. ground arith

pub decode-IsDecoded :
    (u : PackageUnit)
    → (result : ℕ) × (t : PackageUnit) × (unit_decode u ≡ some (result, t)) × IsDecoded u result t
unfolding unit_decode
decode-IsDecoded u =
    decode_loop-IsDecoded 513 (marks u) u (omega (arith, count_lost-le u)) (marks-IsMarked u)
