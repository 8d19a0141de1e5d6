-- ===== src/Prelude/Lists.antt =====
-- Lists measured and indexed by native numbers, under the library's names.
use Prim.Native.Nat.{ℕ, zero, suc, ◌+◌, ◌-◌}
use mathlib.Core.Path.{◌≡◌, refl, ap}
use mathlib.Core.Logic.{◌⊎◌, inl, inr}
use mathlib.Core.List.{List, [], ◌∷◌, ◌++◌}
use mathlib.Core.Option.{Option, none, some}
use native.Mathlib.Omega.{arith}

module _ {ℓ} {A : Type ℓ} where
  abbrev pub length : List A → ℕ
  length [] = 0
  length (x ∷ xs) = suc (length xs)

  abbrev pub get_elem? : List A → ℕ → Option A
  get_elem? [] i = none
  get_elem? (x ∷ xs) zero = some x
  get_elem? (x ∷ xs) (suc i) = get_elem? xs i

  abbrev pub get_or : List A → ℕ → A → A
  get_or [] i d = d
  get_or (x ∷ xs) zero d = x
  get_or (x ∷ xs) (suc i) d = get_or xs i d

  -- A write out of bounds changes nothing.
  abbrev pub set : List A → ℕ → A → List A
  set [] i v = []
  set (x ∷ xs) zero v = v ∷ xs
  set (x ∷ xs) (suc i) v = x ∷ set xs i v

  pub length-append : (xs ys : List A) → length (xs ++ ys) ≡ length xs + length ys
  length-append [] ys = omega arith
  length-append (x ∷ xs) ys = omega (arith, length-append xs ys)

  pub length-set : (xs : List A) (i : ℕ) (v : A) → length (set xs i v) ≡ length xs
  length-set [] i v = refl
  length-set (x ∷ xs) zero v = refl
  length-set (x ∷ xs) (suc i) v = ap suc (length-set xs i v)

  abbrev pub drop : ℕ → List A → List A
  drop zero xs = xs
  drop (suc n) [] = []
  drop (suc n) (x ∷ xs) = drop n xs

  pub length-drop : (n : ℕ) (xs : List A) → length (drop n xs) ≡ length xs - n
  length-drop zero xs = omega arith
  length-drop (suc n) [] = omega arith
  length-drop (suc n) (x ∷ xs) = omega (arith, length-drop n xs)

-- Some member has the property.
pub data Any {ℓ κ} {A : Type ℓ} (P : A → Type κ) : List A → Type (ℓ ⊔ κ) where
  here : {x : A} {xs : List A} → P x → Any P (x ∷ xs)
  there : {x : A} {xs : List A} → Any P xs → Any P (x ∷ xs)

module _ {ℓ κ} {A : Type ℓ} (P : A → Type κ) where
  pub Any-append : (xs ys : List A) → Any P xs → Any P (xs ++ ys)
  Any-append [] ys q = elim q [ ]
  Any-append (x ∷ xs) ys (here p) = here p
  Any-append (x ∷ xs) ys (there q) = there (Any-append xs ys q)

  pub append-Any : (xs ys : List A) → Any P ys → Any P (xs ++ ys)
  append-Any [] ys q = q
  append-Any (x ∷ xs) ys q = there (append-Any xs ys q)

  pub Any-append-cases : (xs ys : List A) → Any P (xs ++ ys) → Any P xs ⊎ Any P ys
  Any-append-cases [] ys q = inr q
  Any-append-cases (x ∷ xs) ys (here p) = inl (here p)
  Any-append-cases (x ∷ xs) ys (there q) = elim (Any-append-cases xs ys q) [
    | inl r ↦ inl (there r)
    | inr r ↦ inr r
  ]

  pub Any-snoc : (xs : List A) (x : A) → P x → Any P (xs ++ x ∷ [])
  Any-snoc [] x p = here p
  Any-snoc (y ∷ xs) x p = there (Any-snoc xs x p)

module _ {ℓ κ ν} {A : Type ℓ} {P : A → Type κ} {Q : A → Type ν} (f : (x : A) → P x → Q x) where
  pub Any-map : (xs : List A) → Any P xs → Any Q xs
  Any-map [] q = elim q [ ]
  Any-map (x ∷ xs) (here p) = here (f x p)
  Any-map (x ∷ xs) (there q) = there (Any-map xs q)

-- Every member has the property.
pub data All {ℓ κ} {A : Type ℓ} (P : A → Type κ) : List A → Type (ℓ ⊔ κ) where
  all_empty : All P []
  all_more : {x : A} {xs : List A} → P x → All P xs → All P (x ∷ xs)
