-- ===== src/Fastcache/Node.antt =====
-- A node in memory (`name` is NULL) and the rounds of the thread that fills its slots.
use zxlib.Prelude.{
  ℕ, zero, suc, ◌+◌, ◌-◌, ◌*◌, ◌%◌, ◌^◌, bit_and, Option, none, some, List, [], ◌∷◌, ◌++◌, ◌==◌,
  ltb, if◌then◌else◌,
}
use zxlib.Prelude.Family.{update}
use zxlib.Package.{Package, package_total_length, package_offset_task, package_offset_info}
use zxlib.Package.Words.{package_get, package_malloc}
use zxlib.Fastcache.HashOf.{HashOf}

-- `index` of `fastcache_init`: the numbers of the task and of the part, from the header words.
unfoldable pub index : (ℕ → ℕ) → ℕ
index words =
    (bit_and (words package_offset_task) (2 ^ 32 - 1) * 2 ^ 32 % 2 ^ 64
      + bit_and (words package_offset_info) (2 ^ 32 - 1))
    % 2 ^ 64

module _ (lib : HashOf) where
  open lib use {Carrier, hash_get, hash_set, hash_del}

  -- `s` is the words of each slot, `index_s` the index of each, `i` the local variable of the thread.
  pub record FastcacheNode : Type 0 where
    pub q : List Package
    pub s : ℕ → ℕ → ℕ
    pub block : ℕ
    pub index_s : ℕ → ℕ
    pub hash : Carrier
    pub count : ℕ
    pub i : ℕ

  -- A node of `block` slots as `fastcache_add` makes it, all of them free.
  unfoldable pub new_node : ℕ → FastcacheNode
  new_node block = record {
    q = [];
    s = λ i w. 0;
    block = block;
    index_s = λ i. 0;
    hash = lib.hash_new;
    count = 0;
    i = 0;
  }

  -- The choice of `_fastcache_write` has fallen on the node.
  unfoldable pub node_put : Package → FastcacheNode → FastcacheNode
  node_put p n = record n { q = n.q ++ p ∷ []; count = n.count + 1 }

  -- The search for a free slot, on fuel.
  unfoldable pub find_free : ℕ → (index_s : ℕ → ℕ) → (block i : ℕ) → Option ℕ
  find_free zero index_s block i = none
  find_free (suc fuel) index_s block i =
      let rest = find_free fuel index_s block ((i + 1) % block) in
      if index_s i == 0 then some i else rest

  -- The words of a packet stored in a slot, and the slot's index and the table set.
  unfoldable pub store_in : Package → ℕ → FastcacheNode → FastcacheNode
  store_in p j n =
      let id = index p.words in
      record n {
        s = update n.s j (λ w. if ltb w package_total_length then p.words w else n.s j w);
        index_s = update n.index_s j id;
        hash = hash_set n.hash id (j + 1);
        i = j;
      }

  unfoldable pub write_first : List Package → FastcacheNode → Option FastcacheNode
  write_first [] n = none
  write_first (p ∷ q) n = elim (find_free n.block n.index_s n.block n.i) [
    | none ↦ none
    | some j ↦ some (record (store_in p j n) { q = q })
  ]

  -- One round of `__fastcache_write`: `none` is a wait for a packet, or a search without end.
  unfoldable pub node_write : FastcacheNode → Option FastcacheNode
  node_write n = write_first n.q n

  -- What `fastcache_read` makes of the slot that the table gives, `none` to go on to another node.
  unfoldable pub node_read : ℕ → FastcacheNode → Option Package
  node_read id n =
      let i = hash_get n.hash id in
      if i == 0
      then none
      else some (
          package_get (record package_malloc {
            words = λ w. if ltb w package_total_length then n.s (i - 1) w else 0;
          }))

  -- The same of `fastcache_clean`.
  unfoldable pub node_clean : ℕ → FastcacheNode → Option FastcacheNode
  node_clean id n =
      let i = hash_get n.hash id in
      if i == 0
      then none
      else some (record n {
        hash = hash_del n.hash id;
        index_s = update n.index_s (i - 1) 0;
        count = n.count - 1;
      })
