-- ===== src/Fastcache/Totals.antt =====
-- The totals over the nodes of the cache, when one of them changes or a new one comes.
use zxlib.Prelude.{
  ℕ, zero, suc, ◌+◌, ◌<◌, ◌≤◌, ◌≡◌, some, subst, sym, ◌∙◌, arith, List, length, All, ℕ_discrete,
  dec_lt,
}
use zxlib.Prelude.Family.{update}
use zxlib.Prelude.Loop.{sum_range, sum_range_ext, sum_range_change}
use zxlib.Package.{Package}
use zxlib.Fastcache.HashOf.{HashOf}
use zxlib.Fastcache.Node.{FastcacheNode, new_node}
use zxlib.Fastcache.Cached.{HasIndex, IsCached, new_node-IsCached}
use zxlib.Fastcache.Cache.{Fastcache}

-- Of two totals the larger has a larger member.
pub sum_range_gap :
    (n : ℕ) (f g : ℕ → ℕ) → sum_range n f < sum_range n g → (k : ℕ) × (k < n) × (f k < g k)
unfolding sum_range
sum_range_gap zero f g h = absurd (omega arith)
sum_range_gap (suc n) f g h = elim (dec_lt (f n) (g n)) [
  | yes lt ↦ (n, omega arith, lt)
  | no ge ↦ let (k, p, q) = sum_range_gap n f g (omega arith) in (k, omega arith, q)
]

module _ (lib : HashOf) where
  abbrev pub counts : Fastcache lib → ℕ → ℕ
  counts fc k = (fc.nodes k).count

  abbrev pub blocks : Fastcache lib → ℕ → ℕ
  blocks fc k = (fc.nodes k).block

  pub record IsFastcache (fc : Fastcache lib) : Type 0 where
    pub cached : (k : ℕ) → k < fc.size → IsCached lib (fc.nodes k)
    pub waiting : All HasIndex fc.q
    pub held : sum_range fc.size (counts fc) + length fc.q ≡ fc.num
    pub slots : sum_range fc.size (blocks fc) ≡ fc.max
    pub fits : fc.num ≤ fc.max
    pub listed : (level k : ℕ) → fc.at_level level ≡ some k → (k < fc.size) × (fc.levels k ≡ level)
    pub latest : (k : ℕ) → k < fc.size → (j : ℕ) × (fc.at_level (fc.levels k) ≡ some j) × (k ≤ j)

  -- One node changes.
  module _ (fc : Fastcache lib) (k : ℕ) (n : FastcacheNode lib) (c : IsFastcache fc)
      (lt : k < fc.size) where
    abbrev nodes : ℕ → FastcacheNode lib
    nodes = update fc.nodes k n

    changed-IsCached : IsCached lib n → (j : ℕ) → j < fc.size → IsCached lib (nodes j)
    changed-IsCached h j p = elim (ℕ_discrete j k) [
      | yes e ↦ subst (λ (m : FastcacheNode lib). IsCached lib m) (ground (arith, e)) h
      | no ne ↦
          subst (λ (m : FastcacheNode lib). IsCached lib m) (ground (arith, ne)) (c.cached j p)
    ]

    blocks_same : n.block ≡ (fc.nodes k).block → sum_range fc.size (λ j. (nodes j).block) ≡ fc.max
    blocks_same e =
        sum_range_ext fc.size (λ j. (nodes j).block) (blocks fc) (λ j p. ground (arith, e))
        ∙ c.slots

    pub counts_up :
        (d : ℕ)
        → n.count ≡ (fc.nodes k).count + d
        → sum_range fc.size (λ j. (nodes j).count) ≡ sum_range fc.size (counts fc) + d
    counts_up d e =
        sum_range_change fc.size k d (λ j. (nodes j).count) (counts fc) lt
          (λ j p ne. ground (arith, ne)) (ground (arith, e))

    pub counts_down :
        (d : ℕ)
        → (fc.nodes k).count ≡ n.count + d
        → sum_range fc.size (counts fc) ≡ sum_range fc.size (λ j. (nodes j).count) + d
    counts_down d e =
        sum_range_change fc.size k d (counts fc) (λ j. (nodes j).count) lt
          (λ j p ne. ground (arith, ne)) (ground (arith, e))

    -- The cache with this node, and with other packets and another total.
    pub changed-IsFastcache :
        (q : List Package) (num : ℕ)
        → IsCached lib n
        → n.block ≡ (fc.nodes k).block
        → All HasIndex q
        → sum_range fc.size (λ j. (nodes j).count) + length q ≡ num
        → num ≤ fc.max
        → IsFastcache (record fc { q = q; num = num; nodes = nodes })
    changed-IsFastcache q num h e w t fit = record {
      cached = changed-IsCached h;
      waiting = w;
      held = t;
      slots = blocks_same e;
      fits = fit;
      listed = c.listed;
      latest = c.latest;
    }

  -- A new node at the end of the row.
  pub added-IsFastcache :
      (block level : ℕ) (fc : Fastcache lib)
      → 0 < block
      → IsFastcache fc
      → IsFastcache (record fc {
        max = fc.max + block;
        nodes = update fc.nodes fc.size (new_node lib block);
        levels = update fc.levels fc.size level;
        at_level = update fc.at_level level (some fc.size);
        size = suc fc.size;
      })
  unfolding sum_range new_node
  added-IsFastcache block level fc h c = record {
    cached = λ k lt. added k lt;
    waiting = c.waiting;
    held = omega (
      arith,
      sum_range_ext fc.size (λ k. (update fc.nodes fc.size (new_node lib block) k).count)
          (counts fc) (λ k p. ground arith),
      new_count fc.size fc.nodes,
      c.held,
    );
    slots = omega (
      arith,
      sum_range_ext fc.size (λ k. (update fc.nodes fc.size (new_node lib block) k).block)
          (blocks fc) (λ k p. ground arith),
      new_block fc.size fc.nodes,
      c.slots,
    );
    fits = omega (arith, c.fits);
    listed = listed_after;
    latest = latest_after;
  }
    where
      new_count :
          (n : ℕ) (nodes : ℕ → FastcacheNode lib)
          → (update nodes n (new_node lib block) n).count ≡ 0
      new_count n nodes = ground arith

      new_block :
          (n : ℕ) (nodes : ℕ → FastcacheNode lib)
          → (update nodes n (new_node lib block) n).block ≡ block
      new_block n nodes = ground arith

      added :
          (k : ℕ) → k < suc fc.size → IsCached lib (update fc.nodes fc.size (new_node lib block) k)
      added k lt = elim (ℕ_discrete k fc.size) [
        | yes e ↦
            subst (λ (m : FastcacheNode lib). IsCached lib m) (ground (arith, e))
              (new_node-IsCached lib block h)
        | no ne ↦
            subst (λ (m : FastcacheNode lib). IsCached lib m) (ground (arith, ne))
              (c.cached k (omega arith))
      ]

      listed_after :
          (l k : ℕ)
          → update fc.at_level level (some fc.size) l ≡ some k
          → (k < suc fc.size) × (update fc.levels fc.size level k ≡ l)
      listed_after l k e = elim (ℕ_discrete l level) [
        | yes q ↦
            let new : update fc.at_level level (some fc.size) l ≡ some fc.size =
              ground (arith, q) in
            let same : fc.size ≡ k = cc (new, e) in (omega arith, ground (arith, same, q))
        | no ne ↦
            let old : update fc.at_level level (some fc.size) l ≡ fc.at_level l =
              ground (arith, ne) in
            let (lt, at) = c.listed l k (sym old ∙ e) in (omega arith, ground (arith, lt, at))
      ]

      latest_after :
          (k : ℕ)
          → k < suc fc.size
          → (j : ℕ) × (update fc.at_level level (some fc.size) (update fc.levels fc.size level k)
              ≡ some j)
            × (k ≤ j)
      latest_after k lt = elim (ℕ_discrete k fc.size) [
        | yes q ↦ (fc.size, ground (arith, q), omega arith)
        | no ne ↦ old k (omega arith) (ℕ_discrete (fc.levels k) level)
      ]
        where
          old :
              (k : ℕ)
              → k < fc.size
              → Dec (fc.levels k ≡ level)
              → (j : ℕ) × (update fc.at_level level
                    (some fc.size)
                    (update fc.levels fc.size level k)
                  ≡ some j)
                × (k ≤ j)
          old k lt (yes q) = (fc.size, ground (arith, q, lt), omega arith)
          old k lt (no ne) = let (j, at, le) = c.latest k lt in (j, ground (arith, at, ne, lt), le)
