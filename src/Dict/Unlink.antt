-- ===== src/Dict/Unlink.antt =====
-- The links after a node has left a list.
use zxlib.Prelude.{ℕ, ◌+◌, ◌-◌, ◌<◌, ◌≡◌, ◌≢◌, ap, sym, ◌∙◌, arith, ltb, if◌then◌else◌}
use zxlib.Dict.Nodes.{DictList, unlink, pop_head}
use zxlib.Dict.Linked.{prev_zero, prev_one, prev_some, IsLinked, Holds}

-- What is left without the index `k`.
abbrev pub removed : (ℕ → ℕ) → ℕ → ℕ → ℕ
removed node k j = if ltb j k then node j else node (j + 1)

module _ {node : ℕ → ℕ} {dl : DictList} (l : IsLinked node dl) where
  module _ (k : ℕ) (lt : k < dl.size) where
    next_some : k + 1 < dl.size → dl.next (node k) ≢ 0
    next_some p e = l.members (k + 1) p (sym (l.forth k p) ∙ e)

    removed_distinct :
        (i j : ℕ) → i < dl.size - 1 → j < dl.size - 1 → removed node k i ≡ removed node k j → i ≡ j
    removed_distinct i j p q e = ground (
      arith,
      e,
      l.distinct i j,
      l.distinct (i + 1) j,
      l.distinct i (j + 1),
      l.distinct (i + 1) (j + 1),
    )

    unlink_forth :
        (j : ℕ)
        → j + 1 < dl.size - 1
        → (unlink (node k) dl).next (removed node k j) ≡ removed node k (j + 1)
    unfolding unlink
    unlink_forth j p = ground (
      arith,
      prev_zero l k lt,
      prev_one l k lt,
      prev_some l k lt,
      l.forth j,
      l.forth (j + 1),
      l.forth k,
      l.distinct j (k - 1),
      l.distinct (j + 1) (k - 1),
    )

    unlink_next_none :
        (j : ℕ) → j + 1 ≡ dl.size - 1 → (unlink (node k) dl).next (removed node k j) ≡ 0
    unfolding unlink
    unlink_next_none j p = ground (
      arith,
      prev_zero l k lt,
      prev_one l k lt,
      prev_some l k lt,
      l.next_none (j + 1),
      l.next_none k,
      l.distinct j (k - 1),
      l.distinct (j + 1) (k - 1),
      l.forth j,
    )

    unlink_back :
        (j : ℕ)
        → j + 1 < dl.size - 1
        → (unlink (node k) dl).prev (removed node k (j + 1)) ≡ removed node k j
    unfolding unlink
    unlink_back j p = ground (
      arith,
      prev_zero l k lt,
      prev_one l k lt,
      next_some,
      l.forth k,
      l.next_none k,
      l.back j,
      l.back (j + 1),
      l.back k,
      l.distinct (j + 1) (k + 1),
      l.distinct (j + 2) (k + 1),
    )

    unlink_prev_none : 0 < dl.size - 1 → (unlink (node k) dl).prev (removed node k 0) ≡ 0
    unfolding unlink
    unlink_prev_none p = ground (
      arith,
      prev_zero l k lt,
      prev_one l k lt,
      next_some,
      l.forth k,
      l.next_none k,
      l.prev_none,
      l.distinct 0 (k + 1),
      l.distinct 1 (k + 1),
    )

    unlink_head : 0 < dl.size - 1 → (unlink (node k) dl).head ≡ removed node k 0
    unfolding unlink
    unlink_head p = ground (arith, prev_zero l k lt, prev_some l k lt, l.head_first, l.forth k)

    unlink_tail : 0 < dl.size - 1 → (unlink (node k) dl).tail ≡ removed node k (dl.size - 2)
    unfolding unlink
    unlink_tail p = ground (arith, prev_one l k lt, next_some, l.next_none k, l.tail_last)

    unlink_fast :
        (dl.next (node k) ≢ 0 → dl.fast_num ≡ k)
        → (unlink (node k) dl).fast_node ≢ 0
        → ((unlink (node k) dl).fast_num < dl.size - 1)
          × ((unlink (node k) dl).fast_node ≡ removed node k (unlink (node k) dl).fast_num)
    unfolding unlink
    unlink_fast here ne = ground (arith, here ne, l.next_none k, l.forth k, ne)

    unlink-IsLinked :
        (dl.next (node k) ≢ 0 → dl.fast_num ≡ k) → IsLinked (removed node k) (unlink (node k) dl)
    unfolding unlink
    unlink-IsLinked here = record {
      members = λ j p. ground (arith, l.members j, l.members (j + 1));
      distinct = removed_distinct;
      head_none = λ e. ground (arith, prev_zero l k lt, l.next_none k);
      head_first = unlink_head;
      tail_last = λ p. unlink_tail p ∙ ap (removed node k) (omega arith);
      forth = unlink_forth;
      next_none = unlink_next_none;
      back = unlink_back;
      prev_none = unlink_prev_none;
      fast = unlink_fast here;
    }

  pop_head-IsLinked : 0 < dl.size → dl.fast_node ≡ 0 → IsLinked (removed node 0) (pop_head dl)
  unfolding pop_head
  pop_head-IsLinked p none_fast = record {
    members = λ j q. ground (arith, l.members (j + 1));
    distinct = removed_distinct 0 p;
    head_none = λ e. ground (arith, l.head_first p, l.next_none 0);
    head_first = λ q. ground (arith, l.head_first p, l.forth 0);
    tail_last = λ q. ground (arith, l.head_first p, l.forth 0, l.members 1, l.tail_last);
    forth = λ j q. ground (arith, l.forth (j + 1));
    next_none = λ j q. ground (arith, l.next_none (j + 1));
    back = λ j q.
        ground
          (arith, l.head_first p, l.forth 0, l.members 1, l.back (j + 1), l.distinct (j + 2) 1);
    prev_none = λ q. ground (arith, l.head_first p, l.forth 0, l.members 1);
    fast = λ ne. absurd (ne none_fast);
  }

module _ {n : ℕ} {value node : ℕ → ℕ} {dl : DictList} (h : Holds n value node dl) where
  pub unlink-Holds :
      (k : ℕ)
      → k < n
      → (dl.next (node k) ≢ 0 → dl.fast_num ≡ k)
      → Holds (n - 1) (removed value k) (removed node k) (unlink (node k) dl)
  unfolding unlink
  unlink-Holds k lt here = record {
    linked = unlink-IsLinked h.linked k (rw h.length_of lt) here;
    length_of = ap (λ (m : ℕ). m - 1) h.length_of;
    values = λ j p. ground (arith, h.values j, h.values (j + 1));
  }

  pub pop_head-Holds :
      0 < n → dl.fast_node ≡ 0 → Holds (n - 1) (removed value 0) (removed node 0) (pop_head dl)
  unfolding pop_head
  pop_head-Holds p e = record {
    linked = pop_head-IsLinked h.linked (rw h.length_of p) e;
    length_of = ap (λ (m : ℕ). m - 1) h.length_of;
    values = λ j p. ground (arith, h.values (j + 1));
  }
