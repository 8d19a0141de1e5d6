-- ===== src/Transqueue/Deliver.antt =====
-- What the receiver hands over after `unit_decode`.
use zxlib.Prelude.{
  ℕ, zero, suc, ◌+◌, ◌-◌, ◌<◌, ◌≤◌, ◌≡◌, refl, ap, sym, ◌∙◌, arith, Bool, true, false, List, [],
  ◌∷◌, ◌++◌, ◌==◌, if◌then◌else◌, append-nil, append_assoc,
}
use zxlib.Prelude.Loop.{for_up_inv}
use zxlib.Package.{Package}
use zxlib.Package.Words.{package_get}
use zxlib.UnitCode.Cell.{PackageUnit, store}
use zxlib.Transqueue.Send.{place_i, place_j, place_k}
use zxlib.Transqueue.Receive.{numbered, deliver_one, deliver}

-- What is handed over for data packet `num` of the decoded unit `t`.
unfoldable pub outcome : (id num : ℕ) → PackageUnit → List Package
outcome id num t =
    if (t (place_i num) (place_j num) (place_k num)).exist
    then (if (package_get (t (place_i num) (place_j num) (place_k num))).task.empty == 0
        then numbered id num (package_get (t (place_i num) (place_j num) (place_k num))) ∷ []
        else [])
    else []

-- For the `n` packets from number `from` on, in this order.
unfoldable pub handed : (id from n : ℕ) → PackageUnit → List Package
handed id from zero t = []
handed id from (suc n) t = handed id from n t ++ outcome id (from + n) t

-- After `n` rounds the later cells are as they were.
record IsHanded (id from n : ℕ) (t : PackageUnit) (q : List Package)
    (s : PackageUnit × List Package) : Type 0 where
  out : s.1 ≡ q ++ handed id from n t
  later :
      (m : ℕ)
      → from + n ≤ m
      → m < 343
      → s.0 (place_i m) (place_j m) (place_k m) ≡ t (place_i m) (place_j m) (place_k m)

pick :
    (b c : Bool) (u v : PackageUnit) (q : List Package) (p : Package)
    → (if◌then◌else◌ {A = PackageUnit × List Package} b (v, if c then q ++ p ∷ [] else q) (u, q)).1
      ≡ q ++ (if b then (if c then p ∷ [] else []) else [])
pick true true u v q p = refl
pick true false u v q p = sym (append-nil q)
pick false c u v q p = sym (append-nil q)

deliver_one_lem :
    (id num : ℕ) (u : PackageUnit) (q : List Package)
    → (deliver_one id num (u, q)).1 ≡ q ++ outcome id num u
unfolding deliver_one outcome
deliver_one_lem id num u q =
    pick (u (place_i num) (place_j num) (place_k num)).exist
      ((package_get (u (place_i num) (place_j num) (place_k num))).task.empty == 0) u
      (store u (place_i num) (place_j num) (place_k num)
        (package_get (u (place_i num) (place_j num) (place_k num))))
      q (numbered id num (package_get (u (place_i num) (place_j num) (place_k num))))

pick_frame :
    (b : Bool) (u : PackageUnit) (q r : List Package) (p : Package) (num m : ℕ)
    → num < m
    → m < 343
    → (if◌then◌else◌ {A = PackageUnit × List Package} b
          (store u (place_i num) (place_j num) (place_k num) p, r)
          (u, q)).0
        (place_i m)
        (place_j m)
        (place_k m)
      ≡ u (place_i m) (place_j m) (place_k m)
pick_frame true u q r p num m a b = ground arith
pick_frame false u q r p num m a b = refl

deliver_one_frame :
    (id num m : ℕ) (s : PackageUnit × List Package)
    → num < m
    → m < 343
    → (deliver_one id num s).0 (place_i m) (place_j m) (place_k m)
      ≡ s.0 (place_i m) (place_j m) (place_k m)
unfolding deliver_one
deliver_one_frame id num m (u, q) a b =
    pick_frame (u (place_i num) (place_j num) (place_k num)).exist u q _
      (package_get (u (place_i num) (place_j num) (place_k num))) num m a b

outcome_cell :
    (id num : ℕ) (u t : PackageUnit)
    → u (place_i num) (place_j num) (place_k num) ≡ t (place_i num) (place_j num) (place_k num)
    → outcome id num u ≡ outcome id num t
unfolding outcome
outcome_cell id num u t e = rw e refl

IsHanded-suc :
    (id from n : ℕ) (t : PackageUnit) (q : List Package) (s : PackageUnit × List Package)
    → from + n < 343
    → IsHanded id from n t q s
    → IsHanded id from (suc n) t q (deliver_one id (from + n) s)
unfolding handed
IsHanded-suc id from n t q (u, r) lt h = record {
  out =
      deliver_one_lem id (from + n) u r
      ∙ ap (λ o. r ++ o) (outcome_cell id (from + n) u t (h.later (from + n) (omega arith) lt))
      ∙ ap (λ r. r ++ outcome id (from + n) t) h.out
      ∙ append_assoc q (handed id from n t) (outcome id (from + n) t);
  later =
      λ m a b. deliver_one_frame id (from + n) m (u, r) (omega arith) b ∙ h.later m (omega arith) b;
}

-- The queue grows by the packets of the decoded unit that are there and not empty, from the one
-- after `number_old` to the last data packet, in their order.
pub deliver_lem :
    (id number_old : ℕ) (t : PackageUnit) (q : List Package)
    → (deliver id number_old (t, q)).1 ≡ q ++ handed id (number_old + 1) (343 - (number_old + 1)) t
unfolding deliver handed
deliver_lem id number_old t q =
    (for_up_inv (λ n. IsHanded id (number_old + 1) n t q) (343 - (number_old + 1)) _ (t, q)
      (λ n s lt. IsHanded-suc id (number_old + 1) n t q s (omega arith))
      (record { out = start; later = λ m a b. refl })).out
  where
    start : q ≡ q ++ handed id (number_old + 1) 0 t
    start = sym (append-nil q)
