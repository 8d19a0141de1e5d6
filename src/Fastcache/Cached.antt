-- ===== src/Fastcache/Cached.antt =====
-- What holds of a node, and that each operation keeps it, for packets whose index is not 0.
use zxlib.Prelude.{
  ℕ, suc, ◌+◌, ◌-◌, ◌<◌, ◌≤◌, ◌≡◌, ◌≢◌, refl, subst, ap, sym, ◌∙◌, arith, none, some, true, false,
  List, [], ◌∷◌, ◌++◌, ◌==◌, if◌then◌else◌, ltb, ℕ_discrete, length, length-append, All, all_empty,
  all_more,
}
use zxlib.Prelude.Family.{update}
use zxlib.Package.{Package, package_total_length}
use zxlib.Fastcache.HashOf.{HashOf}
use zxlib.Fastcache.Node.{
  index, FastcacheNode, new_node, node_put, store_in, write_first, node_write, node_clean,
}
use zxlib.Fastcache.Slots.{used, used-new, used-fill, used-free, find_free_lem}

-- A packet with an index other than 0.
abbrev pub HasIndex : Package → Type 0
HasIndex p = index p.words ≢ 0

module _ (lib : HashOf) where
  open lib use {hash_get, hash_get-new, hash_get-set, hash_get-del}

  -- The count is that of the slots in use and of the packets that wait, and fits; the table has
  -- the slot of an index, which holds a packet with this index.
  pub record IsCached (n : FastcacheNode lib) : Type 0 where
    pub counted : used n.block n.index_s + length n.q ≡ n.count
    pub fits : n.count ≤ n.block
    pub within : n.i < n.block
    pub waiting : All HasIndex n.q
    pub found :
        (id k : ℕ)
        → hash_get n.hash id ≡ suc k
        → (id ≢ 0) × (k < n.block) × (n.index_s k ≡ id) × (index (n.s k) ≡ id)

  pub All-snoc :
      (ps : List Package) (p : Package) → All HasIndex ps → HasIndex p → All HasIndex (ps ++ p ∷ [])
  All-snoc [] p all_empty h = all_more h all_empty
  All-snoc (x ∷ ps) p (all_more g a) h = all_more g (All-snoc ps p a h)

  pub All-uncons :
      {p : Package} {ps : List Package} → All HasIndex (p ∷ ps) → HasIndex p × All HasIndex ps
  All-uncons (all_more h a) = (h, a)

  pub node_put-IsCached :
      (p : Package) (n : FastcacheNode lib)
      → HasIndex p
      → n.count < n.block
      → IsCached n
      → IsCached (node_put lib p n)
  unfolding node_put
  node_put-IsCached p n h lt c = record {
    counted = omega (arith, c.counted, length-append n.q (p ∷ []));
    fits = omega arith;
    within = c.within;
    waiting = All-snoc n.q p c.waiting h;
    found = c.found;
  }

  index_copy :
      (words old : ℕ → ℕ)
      → index (λ w. if ltb w package_total_length then words w else old w) ≡ index words
  unfolding index
  index_copy words old = refl

  -- The slot that the table has for an index, after another slot has been filled.
  store_in-found :
      (p : Package) (j : ℕ) (n : FastcacheNode lib)
      → HasIndex p
      → j < n.block
      → n.index_s j ≡ 0
      → IsCached n
      → (id k : ℕ) → hash_get (store_in lib p j n).hash id ≡ suc k
      → (id ≢ 0)
        × (k < n.block)
        × ((store_in lib p j n).index_s k ≡ id)
        × (index ((store_in lib p j n).s k) ≡ id)
  unfolding store_in
  store_in-found p j n h lt free c id k g = elim (ℕ_discrete id (index p.words)) [
    | yes e ↦
        let at_j : k ≡ j = ground (arith, hash_get-set n.hash (index p.words) (j + 1) id) in
        rw (e, at_j) (h, lt, ground arith, rw (self j) (index_copy p.words (n.s j)))
    | no ne ↦
        let (nz, lt', i, x) =
          c.found id k (ground (arith, hash_get-set n.hash (index p.words) (j + 1) id)) in
        let apart : k ≢ j = λ z. nz (sym i ∙ ap n.index_s z ∙ free) in
        (nz, lt', ground arith, other k apart x)
  ]
    where
      self : (j : ℕ) → (j == j) ≡ true
      self j = ground arith

      differ : (k : ℕ) → k ≢ j → (k == j) ≡ false
      differ k ne = ground arith

      other :
          (k : ℕ)
          → k ≢ j
          → index (n.s k) ≡ id
          → index (update n.s j (λ w. if ltb w package_total_length then p.words w else n.s j w) k)
            ≡ id
      other k ne x = rw (differ k ne) x

  store_in-IsCached :
      (p : Package) (q : List Package) (j : ℕ) (n : FastcacheNode lib)
      → n.q ≡ p ∷ q
      → j < n.block
      → n.index_s j ≡ 0
      → IsCached n
      → IsCached (record (store_in lib p j n) { q = q })
  unfolding store_in
  store_in-IsCached p q j n e lt free c =
      let (h, w) = All-uncons (subst (λ ps. All HasIndex ps) e c.waiting) in
      record {
        counted = omega (
          arith,
          used-fill n.block j (index p.words) n.index_s lt free h,
          ap (λ (ps : List Package). length ps) e,
          c.counted,
        );
        fits = c.fits;
        within = lt;
        waiting = w;
        found = store_in-found p j n h lt free c;
      }

  pub new_node-IsCached : (block : ℕ) → 0 < block → IsCached (new_node lib block)
  unfolding new_node
  new_node-IsCached block h = record {
    counted = omega (arith, used-new block);
    fits = omega arith;
    within = h;
    waiting = all_empty;
    found = λ id k g. absurd (ground (arith, hash_get-new id));
  }

  -- A round of the thread, on a node with a packet.
  pub node_write_total :
      (p : Package) (q : List Package) (n : FastcacheNode lib)
      → n.q ≡ p ∷ q
      → IsCached n
      → (j : ℕ) × (node_write lib n ≡ some (record (store_in lib p j n) { q = q }))
        × IsCached (record (store_in lib p j n) { q = q })
        × (j < n.block)
        × (n.index_s j ≡ 0)
  unfolding node_write write_first
  node_write_total p q n e c =
      let room : used n.block n.index_s < n.block =
        omega (arith, c.counted, c.fits, ap (λ (ps : List Package). length ps) e) in
      let (j, r, lt, free) = find_free_lem lib n.index_s n.block n.i c.within room in
      (j, rw (e, r, write_first) refl, store_in-IsCached p q j n e lt free c, lt, free)

  -- The node after `fastcache_clean` has found the slot `k`.
  abbrev pub cleared : (id k : ℕ) → FastcacheNode lib → FastcacheNode lib
  cleared id k n = record n {
    hash = lib.hash_del n.hash id;
    index_s = update n.index_s k 0;
    count = n.count - 1;
  }

  pub node_clean_found :
      (id k : ℕ) (n : FastcacheNode lib)
      → hash_get n.hash id ≡ suc k
      → node_clean lib id n ≡ some (cleared id k n)
  unfolding node_clean
  node_clean_found id k n f = ground (arith, f, pred k)
    where
      pred : (k : ℕ) → suc k - 1 ≡ k
      pred k = omega arith

  pub node_clean_missing :
      (id : ℕ) (n : FastcacheNode lib) → hash_get n.hash id ≡ 0 → node_clean lib id n ≡ none
  unfolding node_clean
  node_clean_missing id n f = ground (arith, f)

  pub cleared-IsCached :
      (id k : ℕ) (n : FastcacheNode lib)
      → hash_get n.hash id ≡ suc k
      → IsCached n
      → IsCached (cleared id k n) × (0 < n.count)
  cleared-IsCached id k n f c =
      let (nz, lt, i, x) = c.found id k f in
      let used_less = used-free n.block k n.index_s lt (λ z. nz (sym i ∙ z)) in
      (
        record {
          counted = omega (arith, used_less, c.counted);
          fits = omega (arith, c.fits);
          within = c.within;
          waiting = c.waiting;
          found = kept nz i;
        },
        omega (arith, used_less, c.counted),
      )
    where
      kept :
          (id ≢ 0)
          → n.index_s k ≡ id
          → (id' k' : ℕ) → hash_get (lib.hash_del n.hash id) id' ≡ suc k'
          → (id' ≢ 0) × (k' < n.block) × (update n.index_s k 0 k' ≡ id') × (index (n.s k') ≡ id')
      kept nz i id' k' g =
          let here = hash_get-del n.hash id id' in
          let apart : id' ≢ id = ground (arith, here, g) in
          let (nz', lt', i', x') = c.found id' k' (ground (arith, here, g)) in
          let other : k' ≢ k = λ z. apart (sym i' ∙ ap n.index_s z ∙ i) in
          (nz', lt', ground arith, x')
