-- ===== src/Fastcache/ReadBack.antt =====
-- What is read after a packet is stored or cleaned away.
use zxlib.Prelude.{
  ℕ, zero, suc, ◌+◌, ◌-◌, ◌<◌, ◌≡◌, ◌≢◌, ◌⊎◌, inl, inr, refl, ap, sym, ◌∙◌, arith, fun_ext, Option,
  none, some, List, ◌∷◌, ◌==◌, if◌then◌else◌, ltb,
}
use zxlib.Package.{Package, package_total_length, package_length}
use zxlib.Package.Words.{
  package_get, package_malloc, package_set, IsPackage, package_get-package_set,
}
use zxlib.Fastcache.HashOf.{HashOf}
use zxlib.Fastcache.Node.{index, FastcacheNode, store_in, node_write, node_read, node_clean}
use zxlib.Fastcache.Cached.{
  IsCached, cleared, node_write_total, node_clean_found, node_clean_missing, cleared-IsCached,
}

-- A new packet with these words, its headers read from them.
abbrev pub read_words : (ℕ → ℕ) → Package
read_words words =
    package_get
      (record package_malloc { words = λ w. if ltb w package_total_length then words w else 0 })

module _ (lib : HashOf) where
  open lib use {hash_get, hash_get-set, hash_get-del}

  node_read_at :
      (id i : ℕ) (n : FastcacheNode lib)
      → hash_get n.hash id ≡ i
      → node_read lib id n ≡ (if i == 0 then none else some (read_words (n.s (i - 1))))
  unfolding node_read
  node_read_at id i n e = rw (e, node_read) refl

  pub node_read_hit :
      (id k : ℕ) (n : FastcacheNode lib)
      → hash_get n.hash id ≡ suc k
      → node_read lib id n ≡ some (read_words (n.s k))
  node_read_hit id k n e =
      node_read_at id (suc k) n e
      ∙ present k (some (read_words (n.s (suc k - 1))))
      ∙ ap (λ (i : ℕ). some (read_words (n.s i))) (pred k)
    where
      present : (k : ℕ) (o : Option Package) → (if suc k == 0 then none else o) ≡ o
      present k o = ground arith

      pred : (k : ℕ) → suc k - 1 ≡ k
      pred k = omega arith

  node_read_miss :
      (id : ℕ) (n : FastcacheNode lib) → hash_get n.hash id ≡ 0 → node_read lib id n ≡ none
  node_read_miss id n e = node_read_at id 0 n e

  pub same_words :
      (words old : ℕ → ℕ)
      → read_words (λ w. if ltb w package_total_length then words w else old w) ≡ read_words words
  same_words words old =
      ap (λ (f : ℕ → ℕ). package_get (record package_malloc { words = f }))
        (fun_ext λ w. ground arith)

  -- The packet that is read back has the headers and the payload of the one that was written, but
  -- for the length, which is not among the words.
  pub record IsReadAgain (p r : Package) : Type 0 where
    pub code : r.code ≡ p.code
    pub task : r.task ≡ p.task
    pub info : r.info ≡ p.info
    pub payload : (w : ℕ) → w < package_length → r.words w ≡ p.words w

  read_words-IsReadAgain :
      (p : Package) → IsPackage p → IsReadAgain p (read_words (package_set p).words)
  unfolding package_get package_set
  read_words-IsReadAgain p h =
      let b = package_get-package_set p h in
      record {
        code = b.code;
        task = b.task;
        info = b.info;
        payload = λ w lt. ground (arith, b.payload w lt);
      }

  module _ (p : Package) (q : List Package) (j : ℕ) (n : FastcacheNode lib) where
    abbrev pub after : FastcacheNode lib
    after = record (store_in lib p j n) { q = q }

    -- What the table has afterwards.
    pub hash_get-after :
        (id : ℕ)
        → hash_get after.hash id ≡ (if id == index p.words then j + 1 else hash_get n.hash id)
    unfolding store_in
    hash_get-after id = hash_get-set n.hash (index p.words) (j + 1) id

    slot_after : (k : ℕ) → k ≢ j → after.s k ≡ n.s k
    unfolding store_in
    slot_after k ne = ground arith

    pub slot_filled : after.s j ≡ (λ w. if ltb w package_total_length then p.words w else n.s j w)
    unfolding store_in
    slot_filled = ground arith

    pub store_in-read : node_read lib (index p.words) after ≡ some (read_words p.words)
    store_in-read =
        node_read_hit (index p.words) j after (ground (arith, hash_get-after (index p.words)))
        ∙ ap (λ (f : ℕ → ℕ). some (read_words f)) slot_filled
        ∙ ap (λ (r : Package). some r) (same_words p.words (n.s j))

    -- The other indices.
    store_in-read_other :
        (id : ℕ)
        → IsCached lib n
        → n.index_s j ≡ 0
        → id ≢ index p.words
        → node_read lib id after ≡ node_read lib id n
    store_in-read_other id c free ne = same_read (hash_get n.hash id) refl
      where
        same_read : (i : ℕ) → hash_get n.hash id ≡ i → node_read lib id after ≡ node_read lib id n
        same_read zero e =
            node_read_miss id after (ground (arith, hash_get-after id, e))
            ∙ sym (node_read_miss id n e)
        same_read (suc k) e =
            let (nz, lt, i, x) = c.found id k e in
            node_read_hit id k after (ground (arith, hash_get-after id, e))
            ∙ ap (λ (f : ℕ → ℕ). some (read_words f))
                (slot_after k (λ z. nz (sym i ∙ ap n.index_s z ∙ free)))
            ∙ sym (node_read_hit id k n e)

  -- A round of the thread on a node with a packet ends, and after it the packet is read back by its
  -- index, with its headers and its payload. Every other index reads as before, and the node is as
  -- it should be. The packet is one on which `fastcache_write` has set the headers.
  pub node_write-read :
      (p : Package) (q : List Package) (n : FastcacheNode lib)
      → IsPackage p
      → IsCached lib n
      → n.q ≡ package_set p ∷ q
      → (m : FastcacheNode lib) × (r : Package) × (node_write lib n ≡ some m)
        × IsCached lib m
        × (m.q ≡ q)
        × (node_read lib (index (package_set p).words) m ≡ some r)
        × IsReadAgain p r
        × ((id : ℕ) → id ≢ index (package_set p).words → node_read lib id m ≡ node_read lib id n)
  node_write-read p q n h c e =
      let (j, w, c', lt, free) = node_write_total lib (package_set p) q n e c in
      (
        after (package_set p) q j n,
        read_words (package_set p).words,
        w,
        c',
        refl,
        store_in-read (package_set p) q j n,
        read_words-IsReadAgain p h,
        λ id ne. store_in-read_other (package_set p) q j n id c free ne,
      )

  -- After `fastcache_clean` of an index the node has no packet for it, every other index reads as
  -- before, and the node is as it should be, with one packet less in the count. It fails exactly
  -- when there is nothing to read.
  pub node_clean-read :
      (id : ℕ) (n : FastcacheNode lib)
      → IsCached lib n
      → ((node_read lib id n ≡ none) × (node_clean lib id n ≡ none))
        ⊎ ((m : FastcacheNode lib) × (node_clean lib id n ≡ some m)
            × IsCached lib m
            × (m.count + 1 ≡ n.count)
            × (node_read lib id n ≢ none)
            × (node_read lib id m ≡ none)
            × ((id' : ℕ) → id' ≢ id → node_read lib id' m ≡ node_read lib id' n))
  node_clean-read id n c = cleaned (hash_get n.hash id) refl
    where
      cleared_other :
          (id k : ℕ) (n : FastcacheNode lib) (id' : ℕ)
          → id' ≢ id
          → node_read lib id' (cleared lib id k n) ≡ node_read lib id' n
      cleared_other id k n id' ne =
          node_read_at id' (hash_get n.hash id') (cleared lib id k n)
            (ground (arith, hash_get-del n.hash id id'))
          ∙ sym (node_read_at id' (hash_get n.hash id') n refl)

      cleaned :
          (i : ℕ)
          → hash_get n.hash id ≡ i
          → ((node_read lib id n ≡ none) × (node_clean lib id n ≡ none))
            ⊎ ((m : FastcacheNode lib) × (node_clean lib id n ≡ some m)
                × IsCached lib m
                × (m.count + 1 ≡ n.count)
                × (node_read lib id n ≢ none)
                × (node_read lib id m ≡ none)
                × ((id' : ℕ) → id' ≢ id → node_read lib id' m ≡ node_read lib id' n))
      cleaned zero e = inl (node_read_miss id n e, node_clean_missing lib id n e)
      cleaned (suc k) e =
          let (c', pos) = cleared-IsCached lib id k n e c in
          inr (
            cleared lib id k n,
            node_clean_found lib id k n e,
            c',
            omega arith,
            λ z. cc (z, node_read_hit id k n e),
            node_read_miss id (cleared lib id k n) (ground (arith, hash_get-del n.hash id id)),
            λ id' ne. cleared_other id k n id' ne,
          )
