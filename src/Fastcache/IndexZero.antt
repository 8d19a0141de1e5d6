-- ===== src/Fastcache/IndexZero.antt =====
-- A packet of the task 0 and the part 0: its index marks its slot as free.
use zxlib.Prelude.{ℕ, zero, suc, ◌<◌, ◌≡◌, ◌≢◌, refl, subst, ap, sym, ◌∙◌, arith, some, List, ◌∷◌}
use zxlib.Package.{Package}
use zxlib.Fastcache.HashOf.{HashOf}
use zxlib.Fastcache.Node.{
  index, FastcacheNode, find_free, store_in, write_first, node_write, node_read,
}
use zxlib.Fastcache.ReadBack.{
  read_words, after, hash_get-after, store_in-read, node_read_hit, same_words, slot_filled,
}

module _ (lib : HashOf) where
  open lib use {hash_get, hash_get-set}

  found_here :
      (fuel block i : ℕ) (index_s : ℕ → ℕ)
      → 0 < fuel
      → index_s i ≡ 0
      → find_free lib fuel index_s block i ≡ some i
  unfolding find_free
  found_here zero block i index_s h free = absurd (omega arith)
  found_here (suc fuel) block i index_s h free = ground (arith, free)

  -- The thread stores in the slot at which it stands, if that is free.
  node_write_here :
      (p : Package) (q : List Package) (n : FastcacheNode lib)
      → 0 < n.block
      → n.q ≡ p ∷ q
      → n.index_s n.i ≡ 0
      → node_write lib n ≡ some (after lib p q n.i n)
  unfolding node_write write_first
  node_write_here p q n h e free =
      rw (e, found_here n.block n.block n.i n.index_s h free, write_first) refl

  module _ (p : Package) (q : List Package) (n : FastcacheNode lib) where
    -- The thread stays where it has stored.
    stays : (after lib p q n.i n).i ≡ n.i
    unfolding store_in
    stays = refl

    same_block : (after lib p q n.i n).block ≡ n.block
    unfolding store_in
    same_block = refl

    marked : (after lib p q n.i n).index_s n.i ≡ index p.words
    unfolding store_in
    marked = ground arith

  -- A packet whose task and part are both 0 is stored, and its slot still counts as free. The next
  -- packet goes into the same slot, and reading the index of the first then gives the second.
  pub index_zero_lost :
      (p p' : Package) (q : List Package) (n : FastcacheNode lib)
      → 0 < n.block
      → n.index_s n.i ≡ 0
      → n.q ≡ p ∷ p' ∷ q
      → index p.words ≡ 0
      → index p'.words ≢ 0
      → (m m' : FastcacheNode lib) × (node_write lib n ≡ some m)
        × (node_read lib 0 m ≡ some (read_words p.words))
        × (node_write lib m ≡ some m')
        × (node_read lib 0 m' ≡ some (read_words p'.words))
  index_zero_lost p p' q n h free e z nz =
      let m = after lib p (p' ∷ q) n.i n in
      let here = stays p (p' ∷ q) n in
      let m' = after lib p' q m.i m in
      let slot : hash_get m.hash 0 ≡ suc n.i =
        ground (arith, hash_get-after lib p (p' ∷ q) n.i n 0) in
      (
        m,
        m',
        node_write_here p (p' ∷ q) n h e free,
        subst (λ (i : ℕ). node_read lib i m ≡ some (read_words p.words)) z
            (store_in-read lib p (p' ∷ q) n.i n),
        node_write_here p' q m (subst (λ (b : ℕ). 0 < b) (sym (same_block p (p' ∷ q) n)) h) refl
            (ap m.index_s here ∙ marked p (p' ∷ q) n ∙ z),
        node_read_hit lib 0 m.i m' (ground (arith, hash_get-after lib p' q m.i m 0, slot, here))
            ∙ ap (λ (f : ℕ → ℕ). some (read_words f)) (slot_filled lib p' q m.i m)
            ∙ ap (λ (r : Package). some r) (same_words lib p'.words (m.s m.i)),
      )
