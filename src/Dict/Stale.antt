-- ===== src/Dict/Stale.antt =====
-- What `dict_list_pop` leaves in `fast`.
use zxlib.Prelude.{ℕ, ◌+◌, ◌-◌, ◌<◌, ◌≡◌, refl, ap, arith}
use zxlib.Dict.Nodes.{pos, DictList, get_at, dict_list_get_node, pop_head, dict_list_pop_3_imple}
use zxlib.Dict.Linked.{Holds, get_at-Holds, get_at-fast}
use zxlib.Dict.Search.{get_node_inside}
use zxlib.Dict.Unlink.{removed, pop_head-Holds}

-- With `fast` set to the index `k`.
module _ {n : ℕ} {value node : ℕ → ℕ} {g : DictList} (k : ℕ) (lt : k + 1 < n)
    (h : Holds n value node g) (at_k : g.fast_node ≡ node k) (num_k : g.fast_num ≡ k) where
  popped : (dict_list_pop_3_imple g (pos 0)).1 ≡ pop_head g
  unfolding dict_list_pop_3_imple
  popped = ground (arith, h.length_of, h.linked.head_first, h.linked.members 0)

  cleared : Holds n value node (record g { fast_node = 0 })
  cleared =
      let l = h.linked in
      record {
        linked = record {
          members = l.members;
          distinct = l.distinct;
          head_none = l.head_none;
          head_first = l.head_first;
          tail_last = l.tail_last;
          forth = l.forth;
          next_none = l.next_none;
          back = l.back;
          prev_none = l.prev_none;
          fast = λ ne. absurd (ne refl);
        };
        length_of = h.length_of;
        values = h.values;
      }

  links_left :
      Holds (n - 1) (removed value 0) (removed node 0) (record (pop_head g) { fast_node = 0 })
  unfolding pop_head
  links_left = pop_head-Holds cleared (omega arith) refl

  fast_left : (get_at (pop_head g) k).0 ≡ node k
  unfolding pop_head get_at
  fast_left = ground (arith, at_k, num_k, h.length_of, h.linked.members k)

  size_left : (pop_head g).size ≡ n - 1
  unfolding pop_head
  size_left = ap (λ (m : ℕ). m - 1) h.length_of

  data_left : (pop_head g).data_of (node k) ≡ value k
  unfolding pop_head
  data_left = h.values k (omega arith)

  stale_after :
      Holds
        (n - 1)
        (removed value 0)
        (removed node 0)
        (record (dict_list_pop_3_imple g (pos 0)).1 { fast_node = 0 })
      × ((dict_list_pop_3_imple g (pos 0)).1.data_of
            (dict_list_get_node (dict_list_pop_3_imple g (pos 0)).1 (pos k)).0
          ≡ value k)
  stale_after = rw popped (
    links_left,
    rw (get_node_inside (pop_head g) (pos k) size_left (ground arith) refl, fast_left) data_left,
  )

-- After a search for the index `k`, a pop of the head takes no notice of it: the links are those of
-- the list without its head, but the next search for `k` returns the node from before the pop, whose
-- data are the value of the index `k - 1`, or for `k` 0 the node that has been released.
pub dict_list_pop_3_imple_stale :
    {n : ℕ} {value node : ℕ → ℕ} {dl : DictList} (k : ℕ)
    → k + 1 < n
    → Holds n value node dl
    → let popped = (dict_list_pop_3_imple (dict_list_get_node dl (pos k)).1 (pos 0)).1 in
      Holds (n - 1) (removed value 0) (removed node 0) (record popped { fast_node = 0 })
      × (popped.data_of (dict_list_get_node popped (pos k)).0 ≡ value k)
dict_list_pop_3_imple_stale {n} {value} {node} {dl} k lt h =
    let here : k < dl.size = rw h.length_of (omega arith) in
    let (e, e', size) = get_at-fast h.linked k here in
    rw (get_node_inside dl (pos k) h.length_of (ground arith) refl)
      (stale_after k lt (get_at-Holds k (omega arith) h) e e')
