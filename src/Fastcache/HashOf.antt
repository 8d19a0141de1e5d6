-- ===== src/Fastcache/HashOf.antt =====
-- The table under a node is that of klib (hash.h over khash.h): what fastcache.c relies on, as an
-- interface.
use zxlib.Prelude.{ℕ, ◌≡◌, ◌==◌, if◌then◌else◌}

-- `hash_t` with 64-bit keys. NULL, for a key that is missing, is 0.
pub record HashOf : Type 1 where
  pub Carrier : Type 0
  pub hash_new : Carrier
  pub hash_get : Carrier → ℕ → ℕ
  pub hash_set : Carrier → ℕ → ℕ → Carrier
  pub hash_del : Carrier → ℕ → Carrier
  pub hash_get-new : (j : ℕ) → hash_get hash_new j ≡ 0
  pub hash_get-set :
      (h : Carrier) (k v j : ℕ) → hash_get (hash_set h k v) j ≡ (if j == k then v else hash_get h j)
  pub hash_get-del :
      (h : Carrier) (k j : ℕ) → hash_get (hash_del h k) j ≡ (if j == k then 0 else hash_get h j)
