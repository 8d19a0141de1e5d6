-- ===== src/Redundancy/Syndrome.antt =====
-- What the five code packets of a receiver hold: the exclusive or of the packets that have come,
-- column by column, which is that of the missing ones.
use zxlib.Prelude.{
  ℕ, suc, ◌<◌, ◌≡◌, inl, inr, refl, ap, ap₂, sym, ◌∙◌, arith, Bool, true, false, ◌&&◌, bit_xor, ltb,
  if◌then◌else◌, Bool-cases,
}
use zxlib.Prelude.Family.{update, xor_range, xor_range_ext, xor_range-xor, xor_range_hole}
use zxlib.Prelude.Xor.{xor-zero, zero-xor, eq_of_xor_zero}
use zxlib.Prelude.Loop.{for_up_inv}
use zxlib.Package.{Package, package_offset_code}
use zxlib.Package.Xor.{package_xor2}
use zxlib.Redundancy.{Redundancy, xor_one, redundancy_xor}
use zxlib.Redundancy.Table.{redundancy_table}
use zxlib.Redundancy.Parity.{masked, IsSixteen}

abbrev pub known : (v : ℕ → Package) (mark : ℕ → Bool) (i w : ℕ) → ℕ → ℕ
known v mark i w j = if mark j then masked i w v j else 0

abbrev pub unknown : (v : ℕ → Package) (mark : ℕ → Bool) (i w : ℕ) → ℕ → ℕ
unknown v mark i w j = if mark j then 0 else masked i w v j

-- The packets `cp` sum up the marked packets of `v`.
abbrev pub IsSyndrome : (v : ℕ → Package) (mark : ℕ → Bool) (cp : ℕ → Package) → Type 0
IsSyndrome v mark cp =
    (i w : ℕ) → i < 5 → w < package_offset_code → (cp i).words w ≡ xor_range 16 (known v mark i w)

known-unknown :
    (v : ℕ → Package) (mark : ℕ → Bool) (i w j : ℕ)
    → bit_xor (known v mark i w j) (unknown v mark i w j) ≡ masked i w v j
known-unknown v mark i w j = elim (Bool-cases (mark j)) [
  | inl e ↦ rw e (xor-zero _)
  | inr e ↦ rw e (zero-xor _)
]

-- Of a codeword, the known packets of a column make the unknown ones.
pub unknown_lem :
    (v : ℕ → Package) (mark : ℕ → Bool) (i w : ℕ)
    → IsSixteen v
    → i < 5
    → w < package_offset_code
    → xor_range 16 (known v mark i w) ≡ xor_range 16 (unknown v mark i w)
unknown_lem v mark i w code p q = eq_of_xor_zero _ _ (
    sym (xor_range-xor 16 (known v mark i w) (unknown v mark i w))
    ∙ xor_range_ext 16 _ (masked i w v) (λ j _. known-unknown v mark i w j)
    ∙ code i w p q)

-- The first `n` code packets have taken in `p`.
abbrev IsXored : (n num : ℕ) (p : Package) (r t : Redundancy) → Type 0
IsXored n num p r t =
    (i w : ℕ)
    → w < package_offset_code
    → (t.cp i).words w ≡ (
        if ltb i n && redundancy_table num i
        then bit_xor ((r.cp i).words w) (p.words w)
        else (r.cp i).words w)

xor_one-IsXored :
    (n num : ℕ) (p : Package) (r t : Redundancy)
    → IsXored n num p r t
    → IsXored (suc n) num p r (xor_one p num n t)
unfolding xor_one package_xor2
xor_one-IsXored n num p r t h i w q = ground (arith, h i w q)

pub redundancy_xor-IsXored :
    (num : ℕ) (p : Package) (r : Redundancy) (i w : ℕ)
    → i < 5
    → w < package_offset_code
    → ((redundancy_xor r p num).cp i).words w ≡ (
        if redundancy_table num i then bit_xor ((r.cp i).words w) (p.words w) else (r.cp i).words w)
unfolding redundancy_xor
redundancy_xor-IsXored num p r i w lt q =
    for_up_inv (λ n t. IsXored n num p r t) 5 (xor_one p num) r
      (λ n t _ h. xor_one-IsXored n num p r t h) (λ i w q. ground arith) i w q
    ∙ ground arith

with_cp : (ℕ → Package) → Redundancy → Redundancy
with_cp cp t = record t { cp = cp }

xor_one_frame :
    (num i : ℕ) (p : Package) (r t : Redundancy)
    → t ≡ record r { cp = t.cp }
    → xor_one p num i t ≡ record r { cp = (xor_one p num i t).cp }
unfolding xor_one with_cp
xor_one_frame num i p r t h = elim (Bool-cases (redundancy_table num i)) [
  | inl e ↦ rw e (ap (with_cp (update t.cp i (package_xor2 (t.cp i) (t.cp i) p))) h)
  | inr e ↦ rw e h
]

-- Everything else stays.
pub redundancy_xor_frame :
    (num : ℕ) (p : Package) (r : Redundancy)
    → redundancy_xor r p num ≡ record r { cp = (redundancy_xor r p num).cp }
unfolding redundancy_xor
redundancy_xor_frame num p r =
    for_up_inv (λ _ t. t ≡ record r { cp = t.cp }) 5 (xor_one p num) r
      (λ i t _. xor_one_frame num i p r t) refl

-- A packet that was missing is taken in.
pub known-update :
    (v : ℕ → Package) (mark : ℕ → Bool) (k i w : ℕ)
    → k < 16
    → mark k ≡ false
    → bit_xor (xor_range 16 (known v mark i w)) (masked i w v k)
      ≡ xor_range 16 (known v (update mark k true) i w)
known-update v mark k i w lt e =
    ap (λ (t : ℕ). bit_xor (xor_range 16 (known v mark i w)) t) (ground arith)
    ∙ xor_range_hole 16 k (known v mark i w) (known v (update mark k true) i w) lt
        (λ j _ ne. ground arith) (ground (arith, e))

pub IsSyndrome-redundancy_xor :
    (v : ℕ → Package) (mark : ℕ → Bool) (r : Redundancy) (p : Package) (num : ℕ)
    → IsSyndrome v mark r.cp
    → num < 16
    → mark num ≡ false
    → ((w : ℕ) → w < package_offset_code → p.words w ≡ (v num).words w)
    → IsSyndrome v (update mark num true) (redundancy_xor r p num).cp
IsSyndrome-redundancy_xor v mark r p num h lt e same i w a b =
    redundancy_xor-IsXored num p r i w a b
    ∙ by_table (redundancy_table num i) (h i w a b) (same w b)
    ∙ known-update v mark num i w lt e
  where
    by_table :
        (c : Bool)
        → (r.cp i).words w ≡ xor_range 16 (known v mark i w)
        → p.words w ≡ (v num).words w
        → (if c then bit_xor ((r.cp i).words w) (p.words w) else (r.cp i).words w)
          ≡ bit_xor (xor_range 16 (known v mark i w)) (if c then (v num).words w else 0)
    by_table true x y = ap₂ bit_xor x y
    by_table false x y = x ∙ sym (xor-zero _)
