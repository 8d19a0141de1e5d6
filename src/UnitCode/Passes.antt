-- ===== src/UnitCode/Passes.antt =====
-- The double loops of `unit_decode`: what a stretch of them does to the state of the do loop.
use zxlib.Prelude.{ℕ, ◌<◌, ◌≤◌, ◌≡◌, ◌≢◌, ◌⊎◌, inl, inr, refl, ◌∙◌, arith, true, false, Bool-cases}
use zxlib.UnitCode.{Marks, mark_a, mark_b, mark_c, Sweep}
use zxlib.UnitCode.Cell.{PackageUnit, Axis, along_k, along_i, along_j}
use zxlib.UnitCode.Repairs.{
  IsLost, IsThere, Repairs, here, Repairs-trans, count_lost, Repairs-count_lost, Repairs-keeps,
}

-- The marks cover every lost packet.
abbrev pub IsMarked : Marks → PackageUnit → Type 0
IsMarked m u =
    (i j k : ℕ)
    → i < 8
    → j < 8
    → k < 8
    → (u i j k).exist ≡ false
    → (m.x i ≡ true) × (m.y j ≡ true) × (m.z k ≡ true)

pub IsMarked-line :
    (m : Marks) (u : PackageUnit) (d : Axis) (a b c : ℕ)
    → IsMarked m u
    → a < 8
    → b < 8
    → c < 8
    → IsLost u d a b c
    → (mark_a m d a ≡ true) × (mark_b m d b ≡ true) × (mark_c m d c ≡ true)
IsMarked-line m u along_k a b c h p q r l = h a b c p q r l
IsMarked-line m u along_i a b c h p q r l = let (x, y, z) = h c a b r p q l in (y, z, x)
IsMarked-line m u along_j a b c h p q r l = let (x, y, z) = h b c a q r p l in (z, x, y)

pub IsMarked-Repairs : (m : Marks) {u t : PackageUnit} → IsMarked m u → Repairs u t → IsMarked m t
IsMarked-Repairs m {u} {t} h r i j k p q s l = elim (Bool-cases (u i j k).exist) [
  | inl e ↦ absurd (ground (arith, Repairs-keeps i j k r e))
  | inr e ↦ h i j k p q s e
]

-- No line with exactly one loss, and a line with none.
abbrev pub IsNotSingle : PackageUnit → Axis → (a b : ℕ) → Type 0
IsNotSingle u d a b =
    (c : ℕ) → c < 8 → IsLost u d a b c → (e : ℕ) × (e < 8) × (e ≢ c) × IsLost u d a b e

abbrev pub IsFull : PackageUnit → Axis → (a b : ℕ) → Type 0
IsFull u d a b = (c : ℕ) → c < 8 → IsThere u d a b c

-- From state `s` to state `t` the lines of `L` have been visited.
pub record Passed (L : Axis → ℕ → ℕ → Type 0) (s t : Sweep) : Type 0 where
  pub reach : Repairs s.cells t.cells
  pub calm : t.check ≡ false → (s.check ≡ false) × (t.cells ≡ s.cells)
  pub busy : t.check ≡ true → (s.check ≡ true) ⊎ (count_lost t.cells < count_lost s.cells)
  pub grows : s.result ≤ t.result
  pub single : t.check ≡ false → (d : Axis) (a b : ℕ) → L d a b → IsNotSingle t.cells d a b
  pub clean : t.check ≡ false → t.result ≡ 0 → (d : Axis) (a b : ℕ) → L d a b → IsFull t.cells d a b
  pub idle :
      ((d : Axis) (a b : ℕ) → a < 8 → b < 8 → IsFull s.cells d a b)
      → (t.result ≡ s.result) × (t.check ≡ s.check) × (t.cells ≡ s.cells)

pub Passed-here : (s : Sweep) → Passed (λ d a b. ⊥) s s
Passed-here s = record {
  reach = here;
  calm = λ e. (e, refl);
  busy = λ e. inl e;
  grows = omega arith;
  single = λ e d a b l. absurd l;
  clean = λ e z d a b l. absurd l;
  idle = λ f. (refl, refl, refl);
}

pub Passed-trans :
    {L M N : Axis → ℕ → ℕ → Type 0} {r s t : Sweep}
    → ((d : Axis) (a b : ℕ) → N d a b → L d a b ⊎ M d a b)
    → Passed L r s
    → Passed M s t
    → Passed N r t
Passed-trans {L} {M} {N} {r} {s} {t} split f g = record {
  reach = Repairs-trans f.reach g.reach;
  calm = λ e. let (e1, same1) = g.calm e in let (e0, same0) = f.calm e1 in (e0, same1 ∙ same0);
  busy = λ e. elim (g.busy e) [
    | inl e1 ↦ elim (f.busy e1) [
      | inl e0 ↦ inl e0
      | inr lt ↦ inr (omega (arith, Repairs-count_lost g.reach))
    ]
    | inr lt ↦ inr (omega (arith, Repairs-count_lost f.reach))
  ];
  grows = omega (arith, f.grows, g.grows);
  single = λ e d a b n. elim (split d a b n) [
    | inl l ↦ rw (g.calm e).1 (f.single (g.calm e).0 d a b l)
    | inr l ↦ g.single e d a b l
  ];
  clean = λ e z d a b n. elim (split d a b n) [
    | inl l ↦ rw (g.calm e).1 (f.clean (g.calm e).0 (omega (arith, g.grows)) d a b l)
    | inr l ↦ g.clean e z d a b l
  ];
  idle = λ full.
      let (x, y, z) = f.idle full in
      let (x', y', z') = g.idle (rw z full) in (x' ∙ x, y' ∙ y, z' ∙ z);
}
