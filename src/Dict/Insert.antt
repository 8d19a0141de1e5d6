-- ===== src/Dict/Insert.antt =====
-- The links after a node has been put into a list.
use zxlib.Prelude.{ℕ, ◌+◌, ◌-◌, ◌<◌, ◌≤◌, ◌≡◌, ◌≢◌, arith, ltb, ◌==◌, if◌then◌else◌}
use zxlib.Dict.Nodes.{DictList, push_last, push_before}
use zxlib.Dict.Linked.{prev_zero, prev_one, prev_some, IsLinked}

-- `a` at the index `k`, and what was there one further.
abbrev pub inserted : (ℕ → ℕ) → (k a : ℕ) → ℕ → ℕ
inserted node k a j = if ltb j k then node j else if j == k then a else node (j - 1)

module _ {node : ℕ → ℕ} {dl : DictList} (l : IsLinked node dl) {a : ℕ} (some_node : a ≢ 0)
    (fresh : (j : ℕ) → j < dl.size → node j ≢ a) where
  module _ (k : ℕ) (lt : k < dl.size) (near : dl.fast_node ≢ 0 → k ≤ dl.fast_num) where
    inserted_members : (j : ℕ) → j < dl.size + 1 → inserted node k a j ≢ 0
    inserted_members j p = ground (arith, some_node, l.members j, l.members (j - 1))

    inserted_distinct :
        (i j : ℕ)
        → i < dl.size + 1
        → j < dl.size + 1
        → inserted node k a i ≡ inserted node k a j
        → i ≡ j
    inserted_distinct i j p q e = ground (
      arith,
      e,
      l.distinct i j,
      l.distinct (i - 1) j,
      l.distinct i (j - 1),
      l.distinct (i - 1) (j - 1),
      fresh i,
      fresh j,
      fresh (i - 1),
      fresh (j - 1),
    )

    push_before_forth :
        (j : ℕ)
        → j + 1 < dl.size + 1
        → (push_before a (node k) dl).next (inserted node k a j) ≡ inserted node k a (j + 1)
    unfolding push_before
    push_before_forth j p = ground (
      arith,
      prev_zero l k lt,
      prev_one l k lt,
      prev_some l k lt,
      l.forth j,
      l.forth (j - 1),
      fresh j,
      fresh (j - 1),
      fresh k,
      fresh (k - 1),
      l.distinct j (k - 1),
      l.distinct (j - 1) (k - 1),
      l.distinct j k,
    )

    push_before_next_none :
        (j : ℕ) → j + 1 ≡ dl.size + 1 → (push_before a (node k) dl).next (inserted node k a j) ≡ 0
    unfolding push_before
    push_before_next_none j p = ground (
      arith,
      prev_zero l k lt,
      prev_one l k lt,
      prev_some l k lt,
      l.next_none (j - 1),
      fresh (j - 1),
      fresh (k - 1),
      l.distinct (j - 1) (k - 1),
    )

    push_before_back :
        (j : ℕ)
        → j + 1 < dl.size + 1
        → (push_before a (node k) dl).prev (inserted node k a (j + 1)) ≡ inserted node k a j
    unfolding push_before
    push_before_back j p = ground (
      arith,
      prev_zero l k lt,
      prev_one l k lt,
      l.back j,
      l.back (j - 1),
      fresh j,
      fresh (j + 1),
      fresh k,
      l.distinct j k,
      l.distinct (j + 1) k,
    )

    push_before_prev_none : (push_before a (node k) dl).prev (inserted node k a 0) ≡ 0
    unfolding push_before
    push_before_prev_none =
        ground
          (arith, prev_zero l k lt, prev_one l k lt, l.prev_none, fresh 0, fresh k, l.distinct 0 k)

    push_before_head : (push_before a (node k) dl).head ≡ inserted node k a 0
    unfolding push_before
    push_before_head = ground (arith, prev_zero l k lt, prev_some l k lt, l.head_first)

    push_before_fast :
        (push_before a (node k) dl).fast_node ≢ 0
        → ((push_before a (node k) dl).fast_num < dl.size + 1)
          × ((push_before a (node k) dl).fast_node
              ≡ inserted node k a (push_before a (node k) dl).fast_num)
    unfolding push_before
    push_before_fast ne = ground (arith, ne, l.fast ne, near ne)

    pub push_before-IsLinked : IsLinked (inserted node k a) (push_before a (node k) dl)
    unfolding push_before
    push_before-IsLinked = record {
      members = inserted_members;
      distinct = inserted_distinct;
      head_none = λ e. absurd (omega (arith, e));
      head_first = λ p. push_before_head;
      tail_last = λ p. ground (arith, l.tail_last);
      forth = push_before_forth;
      next_none = push_before_next_none;
      back = push_before_back;
      prev_none = λ p. push_before_prev_none;
      fast = push_before_fast;
    }

  pub push_last-IsLinked : IsLinked (inserted node dl.size a) (push_last a dl)
  unfolding push_last
  push_last-IsLinked = record {
    members = λ j p. ground (arith, some_node, l.members j);
    distinct = λ i j p q e. ground (arith, e, l.distinct i j, fresh i, fresh j);
    head_none = λ e. absurd (omega (arith, e));
    head_first = λ p. ground (arith, l.head_first, l.head_none, l.members 0);
    tail_last = λ p. ground arith;
    forth = λ j p. ground (
      arith,
      l.head_first,
      l.head_none,
      l.members 0,
      l.tail_last,
      l.forth j,
      l.distinct j (dl.size - 1),
      fresh j,
      fresh (dl.size - 1),
    );
    next_none = λ j p.
        ground (arith, l.head_first, l.head_none, l.members 0, l.tail_last, fresh (dl.size - 1));
    back = λ j p.
        ground
          (arith, l.head_first, l.head_none, l.members 0, l.tail_last, l.back j, fresh (j + 1));
    prev_none = λ p. ground (arith, l.head_first, l.head_none, l.members 0, l.prev_none, fresh 0);
    fast = λ ne. ground (arith, l.fast ne);
  }
