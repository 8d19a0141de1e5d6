-- ===== src/Fastcache/Room.antt =====
-- The totals of the cache are right, and a packet that waits always has a node with room.
use zxlib.Prelude.{
  ℕ, zero, suc, ◌+◌, ◌-◌, ◌*◌, ◌/◌, ◌<◌, ◌%◌, ◌^◌, ◌||◌, leb, ◌==◌, ◌⊎◌, inl, inr, sym, ◌∙◌, Bool,
  Bool-cases, ◌≡◌, refl, subst, ap, arith, none, some, List, [], ◌∷◌, length, length-append, All,
  all_empty, ℕ_discrete, dec_lt, lt→ltb, ge→ltb,
}
use zxlib.Prelude.Loop.{sum_range}
use zxlib.Package.{Package, package_total_length}
use zxlib.Package.Words.{package_set}
use zxlib.Fastcache.HashOf.{HashOf}
use zxlib.Fastcache.Node.{FastcacheNode, node_put, write_first, node_write, node_clean, store_in}
use zxlib.Fastcache.Cached.{
  HasIndex, IsCached, All-snoc, All-uncons, node_put-IsCached, node_write_total, node_clean_missing,
  node_clean_found, cleared-IsCached,
}
use zxlib.Fastcache.Cache.{
  Fastcache, fastcache_init, fastcache_add, fastcache_write, Step, add, write, hand_over, store,
  clean, Reach, start, later,
}
use zxlib.Fastcache.Totals.{
  sum_range_gap, counts, blocks, IsFastcache, changed-IsFastcache, counts_up, counts_down,
  added-IsFastcache,
}

module _ (lib : HashOf) where
  put_count : (p : Package) (n : FastcacheNode lib) → (node_put lib p n).count ≡ n.count + 1
  unfolding node_put
  put_count p n = refl

  put_block : (p : Package) (n : FastcacheNode lib) → (node_put lib p n).block ≡ n.block
  unfolding node_put
  put_block p n = refl

  stored_count :
      (p : Package) (j : ℕ) (n : FastcacheNode lib) → (store_in lib p j n).count ≡ n.count
  unfolding store_in
  stored_count p j n = refl

  stored_block :
      (p : Package) (j : ℕ) (n : FastcacheNode lib) → (store_in lib p j n).block ≡ n.block
  unfolding store_in
  stored_block p j n = refl

  node_write_empty : (n : FastcacheNode lib) → n.q ≡ [] → node_write lib n ≡ none
  unfolding node_write write_first
  node_write_empty n f = rw (f, write_first) refl

  -- A round of the thread leaves the count and the number of slots alone.
  node_write-IsCached :
      (n m : FastcacheNode lib)
      → node_write lib n ≡ some m
      → IsCached lib n
      → IsCached lib m × (m.count ≡ n.count) × (m.block ≡ n.block)
  node_write-IsCached n m e c = written n.q refl
    where
      written :
          (ps : List Package)
          → n.q ≡ ps
          → IsCached lib m × (m.count ≡ n.count) × (m.block ≡ n.block)
      written [] f = absurd (cc (e, node_write_empty n f))
      written (p ∷ q) f =
          let (j, r, c', lt, free) = node_write_total lib p q n f c in
          subst
            (λ (m : FastcacheNode lib). IsCached lib m × (m.count ≡ n.count) × (m.block ≡ n.block))
            (cc (e, r)) (c', stored_count p j n, stored_block p j n)

  node_clean-IsCached :
      (id : ℕ) (n m : FastcacheNode lib)
      → node_clean lib id n ≡ some m
      → IsCached lib n
      → IsCached lib m × (n.count ≡ m.count + 1) × (m.block ≡ n.block)
  node_clean-IsCached id n m e c = cleaned (lib.hash_get n.hash id) refl
    where
      cleaned :
          (i : ℕ)
          → lib.hash_get n.hash id ≡ i
          → IsCached lib m × (n.count ≡ m.count + 1) × (m.block ≡ n.block)
      cleaned zero f = absurd (cc (e, node_clean_missing lib id n f))
      cleaned (suc k) f =
          let (c', pos) = cleared-IsCached lib id k n f c in
          subst
            (λ (m : FastcacheNode lib).
              IsCached lib m × (n.count ≡ m.count + 1) × (m.block ≡ n.block))
            (cc (e, node_clean_found lib id k n f)) (c', omega arith, refl)

  Step-IsFastcache :
      {fc fc' : Fastcache lib} → Step lib fc fc' → IsFastcache lib fc → IsFastcache lib fc'
  unfolding fastcache_add fastcache_write
  Step-IsFastcache {fc} (write p h) c = written (dec_lt fc.num fc.max)
    where
      written : Dec (fc.num < fc.max) → IsFastcache lib (fastcache_write lib p fc).1
      written (yes lt) = rw (lt→ltb fc.num fc.max lt) (record {
        cached = c.cached;
        waiting = All-snoc lib fc.q (package_set p) c.waiting h;
        held = omega (arith, c.held, length-append fc.q (package_set p ∷ []));
        slots = c.slots;
        fits = omega arith;
        listed = c.listed;
        latest = c.latest;
      })
      written (no ge) = rw (ge→ltb fc.num fc.max (omega arith)) c
  Step-IsFastcache {fc} (hand_over level k p q e at room) c =
      let (lt, _) = c.listed level k at in
      let (h, w) = All-uncons lib (subst (λ ps. All HasIndex ps) e c.waiting) in
      changed-IsFastcache lib fc k (node_put lib p (fc.nodes k)) c lt q fc.num
        (node_put-IsCached lib p (fc.nodes k) h room (c.cached k lt)) (put_block p (fc.nodes k)) w
        (omega (
          arith,
          counts_up lib fc k (node_put lib p (fc.nodes k)) c lt 1 (put_count p (fc.nodes k)),
          c.held,
          ap (λ (ps : List Package). length ps) e,
        ))
        c.fits
  Step-IsFastcache {fc} (store k n lt e) c =
      let (h, same, b) = node_write-IsCached (fc.nodes k) n e (c.cached k lt) in
      changed-IsFastcache lib fc k n c lt fc.q fc.num h b c.waiting
        (omega (arith, counts_up lib fc k n c lt 0 (omega arith), c.held)) c.fits
  Step-IsFastcache {fc} (clean id level k n at e) c =
      let (lt, _) = c.listed level k at in
      let (h, less, b) = node_clean-IsCached id (fc.nodes k) n e (c.cached k lt) in
      changed-IsFastcache lib fc k n c lt fc.q (fc.num - 1) h b c.waiting
        (omega (arith, counts_down lib fc k n c lt 1 less, c.held)) (omega (arith, c.fits))
  Step-IsFastcache {fc} (add level size e) c =
      elim (Bool-cases (refused (size / (8 * package_total_length) % 2 ^ 32))) [
        | inl out ↦ absurd (ground (arith, e, out))
        | inr good ↦
            subst (λ (fc : Fastcache lib). IsFastcache lib fc) (ground (arith, e, good))
              (added-IsFastcache lib (size / (8 * package_total_length) % 2 ^ 32) level fc
                (ground (arith, good)) c)
      ]
    where
      refused : ℕ → Bool
      refused block = block == 0 || leb (2 ^ 31) (block * (8 * package_total_length))

  Reach-IsFastcache : {fc : Fastcache lib} → Reach lib fc → IsFastcache lib fc
  unfolding fastcache_init sum_range
  Reach-IsFastcache start = record {
    cached = λ k lt. absurd (omega arith);
    waiting = all_empty;
    held = omega arith;
    slots = refl;
    fits = omega arith;
    listed = λ level k e. absurd (cc e);
    latest = λ k lt. absurd (omega arith);
  }
  Reach-IsFastcache (later r st) = Step-IsFastcache st (Reach-IsFastcache r)

  -- Whatever is added, written, handed over, stored and cleaned, in any order, for packets whose
  -- index is not 0: `num` is the number of packets that wait or are held, `max` that of all slots,
  -- `num` is at most `max`, every node is as it should be, and the table holds at each level the
  -- last node that was added there. So `fastcache_write` refuses a packet just when every slot is
  -- taken. While a packet waits there is a node with room for it: that node is in the table, where
  -- the thread finds it, or a later node has taken its place at its level, and its slots, though
  -- counted, are lost.
  pub Reach-room :
      {fc : Fastcache lib}
      → Reach lib fc
      → IsFastcache lib fc
        × ((p : Package) (q : List Package)
            → fc.q ≡ p ∷ q
            → (k : ℕ) × (k < fc.size)
              × ((fc.nodes k).count < (fc.nodes k).block)
              × ((fc.at_level (fc.levels k) ≡ some k)
                  ⊎ ((j : ℕ) × (k < j) × (j < fc.size) × (fc.at_level (fc.levels k) ≡ some j))))
  Reach-room {fc} r =
      let c = Reach-IsFastcache r in
      (
        c,
        λ p q e.
            let (k, lt, room) =
              sum_range_gap fc.size (counts lib fc) (blocks lib fc)
                (omega (arith, c.held, c.slots, c.fits, ap (λ (ps : List Package). length ps) e)) in
            (k, lt, room, in_table c k lt),
      )
    where
      in_table :
          IsFastcache lib fc
          → (k : ℕ) → k < fc.size
          → (fc.at_level (fc.levels k) ≡ some k)
            ⊎ ((j : ℕ) × (k < j) × (j < fc.size) × (fc.at_level (fc.levels k) ≡ some j))
      in_table c k lt =
          let (j, at, le) = c.latest k lt in
          elim (ℕ_discrete k j) [
            | yes e ↦ inl (at ∙ ap some (sym e))
            | no ne ↦ inr (j, omega arith, (c.listed _ j at).0, at)
          ]
