-- ===== src/Fastcache/Cache.antt =====
-- The cache over its nodes: `fastcache_add`, `fastcache_write`, the thread `_fastcache_write` that
-- hands the packets to the nodes, the threads of the nodes and `fastcache_clean`, in any order, one
-- of them at a time.
use zxlib.Prelude.{
  ℕ, suc, ◌+◌, ◌-◌, ◌*◌, ◌/◌, ◌%◌, ◌^◌, ◌||◌, leb, ◌<◌, ◌≡◌, Bool, true, false, Option, none, some,
  List, [], ◌∷◌, ◌++◌, ◌==◌, ltb, if◌then◌else◌,
}
use zxlib.Prelude.Family.{update}
use zxlib.Package.{Package, package_total_length}
use zxlib.Package.Words.{package_set}
use zxlib.Fastcache.HashOf.{HashOf}
use zxlib.Fastcache.Node.{FastcacheNode, new_node, node_put, node_write, node_clean}
use zxlib.Fastcache.Cached.{HasIndex}

module _ (lib : HashOf) where
  -- The nodes of all levels, in one row, as they were added. The table of a level holds its node in
  -- memory under FASTCACHE_MEMORY_NAME: `at_level` is that node's place in the row, or NULL.
  pub record Fastcache : Type 0 where
    pub q : List Package
    pub num : ℕ
    pub max : ℕ
    pub nodes : ℕ → FastcacheNode lib
    pub levels : ℕ → ℕ  -- `fn->level`
    pub at_level : ℕ → Option ℕ
    pub size : ℕ  -- how many nodes there are

  unfoldable pub fastcache_init : Fastcache
  fastcache_init = record {
    q = [];
    num = 0;
    max = 0;
    nodes = λ k. new_node lib 0;
    levels = λ k. 0;
    at_level = λ level. none;
    size = 0;
  }

  -- With `name` NULL; the size is in bytes. The `int` `block` keeps the low 32 bits of the quotient.
  -- `none` is FALSE, or an `int` product that overflows, where the size is computed again. A node that
  -- is in the table at this level is replaced there, and goes on to count.
  unfoldable pub fastcache_add : (level size : ℕ) → Fastcache → Option Fastcache
  fastcache_add level size fc =
      let block = size / (8 * package_total_length) % 2 ^ 32 in
      if block == 0 || leb (2 ^ 31) (block * (8 * package_total_length))
      then none
      else some (record fc {
        max = fc.max + block;
        nodes = update fc.nodes fc.size (new_node lib block);
        levels = update fc.levels fc.size level;
        at_level = update fc.at_level level (some fc.size);
        size = suc fc.size;
      })

  unfoldable pub fastcache_write : Package → Fastcache → Bool × Fastcache
  fastcache_write p fc =
      if ltb fc.num fc.max
      then (true, record fc { num = fc.num + 1; q = fc.q ++ package_set p ∷ [] })
      else (false, fc)

  -- The thread hands a packet to a node of the table that has room. Which one, by its level, its queue
  -- and its speed, is left open. `fastcache_clean` too looks at the nodes of the table only; the
  -- thread of a node runs on when another has taken its place there.
  pub data Step (fc : Fastcache) : Fastcache → Type 0 where
    add : {fc' : Fastcache} (level size : ℕ) → fastcache_add level size fc ≡ some fc' → Step fc fc'
    write : (p : Package) → HasIndex (package_set p) → Step fc (fastcache_write p fc).1
    hand_over :
        (level k : ℕ) (p : Package) (q : List Package)
        → fc.q ≡ p ∷ q
        → fc.at_level level ≡ some k
        → (fc.nodes k).count < (fc.nodes k).block
        → Step fc (record fc { q = q; nodes = update fc.nodes k (node_put lib p (fc.nodes k)) })
    store :
        (k : ℕ) (n : FastcacheNode lib)
        → k < fc.size
        → node_write lib (fc.nodes k) ≡ some n
        → Step fc (record fc { nodes = update fc.nodes k n })
    clean :
        (id level k : ℕ) (n : FastcacheNode lib)
        → fc.at_level level ≡ some k
        → node_clean lib id (fc.nodes k) ≡ some n
        → Step fc (record fc { nodes = update fc.nodes k n; num = fc.num - 1 })

  pub data Reach : Fastcache → Type 0 where
    start : Reach fastcache_init
    later : {fc fc' : Fastcache} → Reach fc → Step fc fc' → Reach fc'
