-- ===== src/UnitCode/Lines.antt =====
-- The visit of one line, and the double loops made of such visits.
use zxlib.Prelude.{
  ℕ, zero, suc, ◌+◌, ◌<◌, ◌≤◌, ◌≡◌, ◌≢◌, ◌⊎◌, inl, inr, refl, sym, ap₂, ◌∙◌, arith, true, false,
  ◌==◌, if◌then◌else◌, Bool-cases, ℕ_discrete,
}
use zxlib.Prelude.Loop.{for_up}
use zxlib.UnitCode.{Marks, mark_a, mark_b, mark_c, Scan, scan, Sweep, repair, decode_line}
use zxlib.UnitCode.Cell.{Axis, cell}
use zxlib.UnitCode.Search.{Knows, scan-Knows}
use zxlib.UnitCode.Repairs.{IsLost, IsThere, Repair, fix, here, next, Repair-count_lost}
use zxlib.UnitCode.Passes.{
  IsMarked, IsMarked-line, IsMarked-Repairs, IsNotSingle, IsFull, Passed, Passed-here, Passed-trans,
}

-- The one line `(d, a, b)`, and the first `n` lines of row `a`.
abbrev OneLine : Axis → (a b : ℕ) → Axis → ℕ → ℕ → Type 0
OneLine d a b d' a' b' = (d' ≡ d) × (a' ≡ a) × (b' ≡ b)

abbrev pub Row : Axis → (a n : ℕ) → Axis → ℕ → ℕ → Type 0
Row d a n d' a' b' = (d' ≡ d) × (a' ≡ a) × (b' < n)

module _ (m : Marks) (d : Axis) (a b : ℕ) (p : a < 8) (q : b < 8) (s : Sweep)
    (marked : IsMarked m s.cells) where
  found : Scan
  found = scan (mark_c m d) (λ c. (cell s.cells d a b c).exist) 8

  found-Knows : Knows (λ c. (cell s.cells d a b c).exist) 8 found
  unfolding found
  found-Knows =
      scan-Knows (mark_c m d) (λ c. (cell s.cells d a b c).exist)
        (λ c r l. (IsMarked-line m s.cells d a b c marked p q r l).2) 8 (omega arith)

  hit : Sweep
  hit = record {
    cells = repair s.cells d a b found.index;
    check = true;
    result = s.result + found.num;
  }

  miss : Sweep
  miss = record s { result = s.result + found.num }

  decode_line-hit : found.num ≡ 1 → decode_line m d a b s ≡ hit
  unfolding decode_line found hit
  decode_line-hit e = rw e

  decode_line-miss : found.num ≢ 1 → decode_line m d a b s ≡ miss
  unfolding decode_line found miss
  decode_line-miss ne = rw (other ne)
    where
      other : found.num ≢ 1 → (found.num == 1) ≡ false
      other ne = ground arith

  -- The search found one loss: it is repaired.
  hit-Passed : found.num ≡ 1 → Passed (OneLine d a b) s hit
  unfolding hit
  hit-Passed e = record {
    reach = next here mended;
    calm = λ f. absurd (cc f);
    busy = λ f. inr (Repair-count_lost mended);
    grows = omega arith;
    single = λ f. absurd (cc f);
    clean = λ f. absurd (cc f);
    idle = λ full. absurd (cc (full d a b p q found.index know.0, know.1));
  }
    where
      know :
          (found.index < 8)
          × (IsLost s.cells d a b found.index)
          × ((c : ℕ) → c < 8 → c ≢ found.index → IsThere s.cells d a b c)
      know = found-Knows.one e

      mended : Repair s.cells (repair s.cells d a b found.index)
      mended = fix s.cells d a b found.index p q know.0 know.1 know.2

  not_single : found.num ≢ 1 → IsNotSingle s.cells d a b
  not_single ne c r l = elim (ℕ_discrete found.num 0) [
    | yes z ↦ absurd (cc (found-Knows.zero z c r, l))
    | no nz ↦
        let (x, y, px, py, nxy, lx, ly) = found-Knows.two (omega (arith, found-Knows.few)) in
        elim (ℕ_discrete x c) [ yes e ↦ (y, py, λ f. nxy (e ∙ sym f), ly) | no e ↦ (x, px, e, lx) ]
  ]

  none_lost : found.num ≢ 1 → IsFull s.cells d a b → found.num ≡ 0
  none_lost ne full = elim (ℕ_discrete found.num 0) [
    | yes z ↦ z
    | no nz ↦
        let (x, y, px, py, nxy, lx, ly) = found-Knows.two (omega (arith, found-Knows.few)) in
        absurd (cc (full x px, lx))
  ]

  -- It found none, or two.
  miss-Passed : found.num ≢ 1 → Passed (OneLine d a b) s miss
  unfolding miss
  miss-Passed ne = record {
    reach = here;
    calm = λ f. (f, refl);
    busy = λ f. inl f;
    grows = omega arith;
    single = λ f d' a' b' (x, y, z). rw (x, y, z) (not_single ne);
    clean = λ f g d' a' b' (x, y, z) c r. rw (x, y, z) (found-Knows.zero (omega arith) c r);
    idle = λ full. (omega (arith, none_lost ne (full d a b p q)), refl, refl);
  }

  pub decode_line-Passed : Passed (OneLine d a b) s (decode_line m d a b s)
  decode_line-Passed = elim (ℕ_discrete found.num 1) [
    | yes e ↦ rw (decode_line-hit e) (hit-Passed e)
    | no ne ↦ rw (decode_line-miss ne) (miss-Passed ne)
  ]

skip_line-Passed :
    (m : Marks) (d : Axis) (a b : ℕ) (s : Sweep)
    → a < 8
    → b < 8
    → IsMarked m s.cells
    → (mark_a m d a ≡ false) ⊎ (mark_b m d b ≡ false)
    → Passed (OneLine d a b) s s
skip_line-Passed m d a b s p q marked unmarked = record {
  reach = here;
  calm = λ f. (f, refl);
  busy = λ f. inl f;
  grows = omega arith;
  single = λ f d' a' b' (x, y, z) c r l.
      absurd (cc (full c r, ap₂ (λ a b. (cell s.cells d a b c).exist) (sym y) (sym z)));
  clean = λ f g d' a' b' (x, y, z). rw (x, y, z) full;
  idle = λ f. (refl, refl, refl);
}
  where
    full : IsFull s.cells d a b
    full c r = elim (Bool-cases (cell s.cells d a b c).exist) [
      | inl t ↦ t
      | inr l ↦ let marks = IsMarked-line m s.cells d a b c marked p q r l in ground arith
    ]

-- Row `a`: the inner loop.
abbrev pub visit : Marks → Axis → (a b : ℕ) → Sweep → Sweep
visit m d a b t = if mark_b m d b then decode_line m d a b t else t

visit-Passed :
    (m : Marks) (d : Axis) (a b : ℕ) (s : Sweep)
    → a < 8
    → b < 8
    → IsMarked m s.cells
    → Passed (OneLine d a b) s (visit m d a b s)
visit-Passed m d a b s p q marked = elim (Bool-cases (mark_b m d b)) [
  | inl t ↦ rw t (decode_line-Passed m d a b p q s marked)
  | inr f ↦ rw f (skip_line-Passed m d a b s p q marked (inr f))
]

pub Row-Passed :
    (m : Marks) (d : Axis) (a : ℕ) (s : Sweep)
    → a < 8
    → IsMarked m s.cells
    → (n : ℕ) → n ≤ 8
    → Passed (Row d a n) s (for_up n (visit m d a) s)
unfolding for_up
Row-Passed m d a s p marked zero h =
    Passed-trans (λ d' a' b' l. absurd (omega arith)) (Passed-here s) (Passed-here s)
Row-Passed m d a s p marked (suc n) h =
    let before = Row-Passed m d a s p marked n (omega arith) in
    Passed-trans (λ d' a' b' (x, y, z). upto b' n x y z) before
      (visit-Passed m d a n _ p (omega arith) (IsMarked-Repairs m marked before.reach))
  where
    upto :
        {d' : Axis} {a' : ℕ} (b' n : ℕ)
        → d' ≡ d
        → a' ≡ a
        → b' < suc n
        → Row d a n d' a' b' ⊎ OneLine d a n d' a' b'
    upto b' n x y z = elim (ℕ_discrete b' n) [
      | yes e ↦ inr (x, y, e)
      | no ne ↦ inl (x, y, omega arith)
    ]
