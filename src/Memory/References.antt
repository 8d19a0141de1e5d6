-- ===== src/Memory/References.antt =====
-- A block lives as long as it has references, up to 127 of them.
use zxlib.Prelude.{
  ℕ, zero, suc, ◌+◌, ◌-◌, ◌%◌, ◌^◌, ◌<◌, ◌≤◌, ◌≡◌, refl, arith, true, false, some, List, [], ◌∷◌,
  ◌++◌, subst, dec_lt,
}
use zxlib.Memory.Table.{lib_page_select}
use zxlib.Memory.Pages.{lib_page_select_lem}
use zxlib.Memory.Counts.{
  Lib, info_of, lib_malloc, lib_free_now, lib_flag_add, is_spent, lib_flag_sub, lib_free,
}

-- `f` done so many times.
abbrev pub times {ℓ} : {A : Type ℓ} → ℕ → (A → A) → A → A
times zero f a = a
times (suc n) f a = f (times n f a)

-- The block at `ptr` has a header in the table with this count, and has not been freed since.
pub record IsLive (ptr count : ℕ) (freed : List ℕ) (l : Lib) : Type 0 where
  pub found : lib_page_select (info_of ptr) l.libmap ≡ true
  pub counted : (l.info (info_of ptr)).flag ≡ count
  pub unfreed : l.freed ≡ freed

pub record IsDead (ptr : ℕ) (freed : List ℕ) (l : Lib) : Type 0 where
  pub lost : lib_page_select (info_of ptr) l.libmap ≡ false
  pub once : l.freed ≡ freed ++ info_of ptr ∷ []

module _ (ptr : ℕ) (freed : List ℕ) where
  lib_flag_add-IsLive :
      (count : ℕ) (l : Lib)
      → IsLive ptr count freed l
      → IsLive ptr ((count + 1) % 2 ^ 8) freed (lib_flag_add ptr l)
  unfolding lib_flag_add
  lib_flag_add-IsLive count l v = ground arith

  lib_flag_sub-IsLive :
      (count : ℕ) (l : Lib)
      → 0 < count
      → count < 128
      → IsLive ptr (count + 1) freed l
      → IsLive ptr count freed (lib_flag_sub ptr l)
  unfolding lib_flag_sub
  lib_flag_sub-IsLive count l p q v = ground arith

  lib_flag_sub-IsDead :
      (count : ℕ) (l : Lib)
      → ptr < 2 ^ 64
      → info_of ptr < 2 ^ 64 - 1
      → is_spent ((count + 2 ^ 8 - 1) % 2 ^ 8) ≡ true
      → IsLive ptr count freed l
      → IsDead ptr freed (lib_flag_sub ptr l)
  unfolding lib_flag_sub lib_free_now
  lib_flag_sub-IsDead count l p q e v =
      ground (arith, (lib_page_select_lem (info_of ptr) (info_of ptr) (omega arith) q l.libmap).1)

  lib_flag_sub_again-IsDead : (l : Lib) → IsDead ptr freed l → IsDead ptr freed (lib_flag_sub ptr l)
  unfolding lib_flag_sub
  lib_flag_sub_again-IsDead l d = ground arith

module _ (size free a : ℕ) (l : Lib) (small : a < 2 ^ 64 - 16) where
  -- The block that `lib_malloc` has made at `a`, after `n` more references.
  abbrev pub referenced : ℕ → Lib
  referenced n = times n (lib_flag_add (a + 16)) (lib_malloc size free (some a) l).1

  -- And after `k` calls of `lib_free`.
  abbrev pub released : ℕ → ℕ → Lib
  released n k = times k (lib_free (a + 16)) (referenced n)

  info_of_lem : info_of (a + 16) ≡ a
  info_of_lem = omega arith

  lib_malloc-IsLive : IsLive (a + 16) 1 l.freed (lib_malloc size free (some a) l).1
  unfolding lib_malloc
  lib_malloc-IsLive = record {
    found =
        rw info_of_lem
          (ground (arith, (lib_page_select_lem a a (omega arith) (omega arith) l.libmap).0));
    counted = rw info_of_lem (ground arith);
    unfreed = refl;
  }

  referenced-IsLive : (n : ℕ) → n < 256 → IsLive (a + 16) ((n + 1) % 2 ^ 8) l.freed (referenced n)
  referenced-IsLive zero h = lib_malloc-IsLive
  referenced-IsLive (suc n) h =
      subst (λ c. IsLive (a + 16) c l.freed (referenced (suc n))) (wrap n)
        (lib_flag_add-IsLive (a + 16) l.freed ((n + 1) % 2 ^ 8) (referenced n)
          (referenced-IsLive n (omega arith)))
    where
      wrap : (n : ℕ) → ((n + 1) % 2 ^ 8 + 1) % 2 ^ 8 ≡ (suc n + 1) % 2 ^ 8
      wrap n = omega arith

  released-IsLive : (n k : ℕ) → n < 127 → k ≤ n → IsLive (a + 16) (n + 1 - k) l.freed (released n k)
  unfolding lib_free
  released-IsLive n zero h le =
      subst (λ c. IsLive (a + 16) c l.freed (referenced n)) (omega arith)
        (referenced-IsLive n (omega arith))
  released-IsLive n (suc k) h le =
      lib_flag_sub-IsLive (a + 16) l.freed (n + 1 - suc k) _ (omega arith) (omega arith) (
        subst (λ c. IsLive (a + 16) c l.freed (released n k)) (omega arith)
          (released-IsLive n k h (omega arith)))

  released-IsDead : (n k : ℕ) → n < 127 → n < k → IsDead (a + 16) l.freed (released n k)
  unfolding lib_free
  released-IsDead n zero h lt = absurd (omega arith)
  released-IsDead n (suc k) h lt = elim (dec_lt n k) [
    | yes before ↦ lib_flag_sub_again-IsDead (a + 16) l.freed _ (released-IsDead n k h before)
    | no now ↦
        lib_flag_sub-IsDead (a + 16) l.freed (n + 1 - k) _ (omega arith)
          (rw info_of_lem (omega arith)) (ground arith) (released-IsLive n k h (omega arith))
  ]

  -- A block that malloc has given to the library, with `n < 127` more references, is in the table as
  -- long as `lib_free` has been called `n` times at most, with the count of what is left. With the
  -- next call it is given to `free`, once, and is no longer in the table, and all further calls of
  -- `lib_free` do nothing to it.
  pub lib_free-IsDead :
      (n k : ℕ)
      → n < 127
      → (k ≤ n → IsLive (a + 16) (n + 1 - k) l.freed (released n k))
        × (n < k → IsDead (a + 16) l.freed (released n k))
  lib_free-IsDead n k h = (released-IsLive n k h, released-IsDead n k h)

  -- The count is a signed byte: with 128 to 255 more references, the first `lib_free` gives the block
  -- to `free`, while all but one of the references are left.
  pub lib_free_overflow : (n : ℕ) → 128 ≤ n → n < 256 → IsDead (a + 16) l.freed (released n 1)
  unfolding lib_free
  lib_free_overflow n p q =
      lib_flag_sub-IsDead (a + 16) l.freed ((n + 1) % 2 ^ 8) (referenced n) (omega arith)
        (rw info_of_lem (omega arith)) (ground arith) (referenced-IsLive n q)
