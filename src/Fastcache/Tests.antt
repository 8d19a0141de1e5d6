-- ===== src/Fastcache/Tests.antt =====
-- A table as a function, and a node of two slots.
use zxlib.Prelude.{
  ℕ, ◌+◌, ◌*◌, ◌^◌, ◌<◌, ◌≡◌, ◌≢◌, ◌⊎◌, refl, arith, none, some, false, List, [], ◌∷◌,
}
use zxlib.Prelude.Family.{update}
use zxlib.Package.{Package, PackageTask}
use zxlib.Package.Task.{IsTask}
use zxlib.Package.Info.{IsInfo}
use zxlib.Package.Words.{package_set, package_malloc, IsPackage, zero_code, zero_task}
use zxlib.Fastcache.HashOf.{HashOf}
use zxlib.Fastcache.Node.{
  index, FastcacheNode, new_node, node_put, node_write, node_read, node_clean,
}
use zxlib.Fastcache.Cached.{HasIndex, IsCached, new_node-IsCached, node_put-IsCached}
use zxlib.Fastcache.ReadBack.{IsReadAgain, read_words, node_write-read, node_clean-read}
use zxlib.Fastcache.IndexZero.{index_zero_lost}
use zxlib.Fastcache.Totals.{IsFastcache}
use zxlib.Fastcache.Cache.{
  Fastcache, fastcache_init, fastcache_add, fastcache_write, Reach, start, later, add, write,
}
use zxlib.Fastcache.Room.{Reach-room}

abbrev function_hash : HashOf
function_hash = record {
  Carrier = ℕ → ℕ;
  hash_new = λ k. 0;
  hash_get = λ h k. h k;
  hash_set = λ h k v. update h k v;
  hash_del = λ h k. update h k 0;
  hash_get-new = λ j. refl;
  hash_get-set = λ h k v j. refl;
  hash_get-del = λ h k j. refl;
}

-- The part 5 of the task 3.
abbrev part_five : Package
part_five = record {
  exist = false;
  code = zero_code;
  task = record zero_task { id = 3 };
  info = record { id = 5; num = 0 };
  words = λ w. 0;
  len = 0;
}

part_five-IsPackage : IsPackage part_five
part_five-IsPackage = record { code = omega arith; task = omega arith; info = omega arith }

test-index : index (package_set part_five).words ≡ 3 * 2 ^ 32 + 5
unfolding index package_set zxlib.Package.Task.set_task_word zxlib.Package.Info.set_info_word
test-index = refl

part_five-HasIndex : HasIndex (package_set part_five)
part_five-HasIndex e = absurd (omega (arith, test-index, e))

-- A node of two slots with the packet in its queue.
abbrev waiting_node : FastcacheNode function_hash
waiting_node = node_put function_hash (package_set part_five) (new_node function_hash 2)

waiting_node-IsCached : IsCached function_hash waiting_node
unfolding new_node
waiting_node-IsCached =
    node_put-IsCached function_hash (package_set part_five) (new_node function_hash 2)
      part_five-HasIndex (omega arith) (new_node-IsCached function_hash 2 (omega arith))

node_write-read_example :
    (m : FastcacheNode function_hash) × (r : Package) × (node_write function_hash waiting_node
      ≡ some m)
    × IsCached function_hash m
    × (m.q ≡ [])
    × (node_read function_hash (index (package_set part_five).words) m ≡ some r)
    × IsReadAgain function_hash part_five r
    × ((id : ℕ)
        → id ≢ index (package_set part_five).words
        → node_read function_hash id m ≡ node_read function_hash id waiting_node)
unfolding node_put new_node
node_write-read_example =
    node_write-read function_hash part_five [] waiting_node part_five-IsPackage
      waiting_node-IsCached refl

node_clean-read_example :
    ((node_read function_hash 7 waiting_node ≡ none)
      × (node_clean function_hash 7 waiting_node ≡ none))
    ⊎ ((m : FastcacheNode function_hash) × (node_clean function_hash 7 waiting_node ≡ some m)
        × IsCached function_hash m
        × (m.count + 1 ≡ waiting_node.count)
        × (node_read function_hash 7 waiting_node ≢ none)
        × (node_read function_hash 7 m ≡ none)
        × ((id' : ℕ)
            → id' ≢ 7
            → node_read function_hash id' m ≡ node_read function_hash id' waiting_node))
node_clean-read_example = node_clean-read function_hash 7 waiting_node waiting_node-IsCached

-- A cache with two nodes of two slots on level 3: the second has taken the place of the first.
abbrev four_slots : Fastcache function_hash
four_slots = record {
  q = [];
  num = 0;
  max = 4;
  nodes =
      update (update (λ k. new_node function_hash 0) 0 (new_node function_hash 2)) 1
        (new_node function_hash 2);
  levels = update (update (λ k. 0) 0 3) 1 3;
  at_level = update (update (λ level. none) 3 (some 0)) 3 (some 1);
  size = 2;
}

four_slots-Reach : Reach function_hash four_slots
unfolding fastcache_init fastcache_add
four_slots-Reach = later (later start (add 3 (2 * 8 * 4100) refl)) (add 3 (2 * 8 * 4100) refl)

abbrev one_waits : Fastcache function_hash
one_waits = (fastcache_write function_hash part_five four_slots).1

Reach-room_example :
    IsFastcache function_hash one_waits
    × ((p : Package) (q : List Package)
        → one_waits.q ≡ p ∷ q
        → (k : ℕ) × (k < one_waits.size)
          × ((one_waits.nodes k).count < (one_waits.nodes k).block)
          × ((one_waits.at_level (one_waits.levels k) ≡ some k)
              ⊎ ((j : ℕ) × (k < j)
                  × (j < one_waits.size)
                  × (one_waits.at_level (one_waits.levels k) ≡ some j))))
Reach-room_example =
    Reach-room function_hash (later four_slots-Reach (write part_five part_five-HasIndex))

-- A packet of the task 0 and the part 0, and another one behind it.
abbrev two_waiting : FastcacheNode function_hash
two_waiting = record {
  q = package_malloc ∷ package_set part_five ∷ [];
  s = λ i w. 0;
  block = 2;
  index_s = λ i. 0;
  hash = λ k. 0;
  count = 2;
  i = 0;
}

index_zero_lost_example :
    (m m' : FastcacheNode function_hash) × (node_write function_hash two_waiting ≡ some m)
    × (node_read function_hash 0 m ≡ some (read_words package_malloc.words))
    × (node_write function_hash m ≡ some m')
    × (node_read function_hash 0 m' ≡ some (read_words (package_set part_five).words))
unfolding index package_malloc
index_zero_lost_example =
    index_zero_lost function_hash package_malloc (package_set part_five) [] two_waiting
      (omega arith) refl refl refl part_five-HasIndex
