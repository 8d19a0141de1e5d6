-- ===== src/Transqueue/Order.antt =====
-- The receiver's loop on packets that arrive in their order, and on a unit that starts with a loss.
use zxlib.Prelude.{
  ℕ, suc, ◌≡◌, inl, inr, refl, true, none, some, List, [], ◌∷◌, ◌++◌, ◌==◌, if◌then◌else◌,
  Bool-cases,
}
use zxlib.Package.{Package}
use zxlib.Package.Words.{package_get}
use zxlib.UnitCode.{unit_reset}
use zxlib.Transqueue.Receive.{Receiver, as_int, non_negative, has_cell}
use zxlib.UnitCode.Cell.{store}

-- The unit of the last packet that came in its turn, or of the last one at all after a loss.
abbrev pub old_id : Receiver → ℕ
old_id s = elim s.id_old [ none ↦ s.id_new | some id ↦ id ]

-- What the round makes of the unit first.
abbrev pub entered : Receiver → Package → Receiver
entered s p = if p.code.id == s.id_new then s else record s { u = unit_reset s.u }

-- Data packets of unit `id` that are not filling ones, numbered from `n` on, each with the
-- coordinates of a cell.
pub data InOrder (id : ℕ) : ℕ → List Package → Type 0 where
  finish : {n : ℕ} → InOrder id n []
  packet :
      {n : ℕ} {raw : Package} {rest : List Package}
      → (package_get raw).code.id ≡ id
      → (package_get raw).code.num ≡ n
      → (package_get raw).code.sign ≡ 0
      → (package_get raw).task.empty ≡ 0
      → has_cell (package_get raw) ≡ true
      → InOrder id (suc n) rest
      → InOrder id n (raw ∷ rest)

-- The state after a data packet inside the unit.
abbrev stored : Receiver → Package → Receiver
stored s p = record {
  held = none;
  id_new = as_int p.code.id;
  id_old = non_negative (as_int p.code.id);
  number_old = p.code.num;
  u = store s.u p.code.i0 p.code.i1 p.code.i2 p;
  q = s.q ++ p ∷ [];
}

pub entered_q : (s : Receiver) (p : Package) → (entered s p).q ≡ s.q
entered_q s p = elim (Bool-cases (p.code.id == s.id_new)) [ inl e ↦ rw e refl | inr e ↦ rw e refl ]
