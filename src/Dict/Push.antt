-- ===== src/Dict/Push.antt =====
-- `dict_list_push`.
use zxlib.Prelude.{
  Bool-cases, inl, inr, ℕ, ◌+◌, ◌-◌, ◌<◌, ◌≤◌, ◌≡◌, ◌≢◌, refl, ap, sym, subst, ◌∙◌, arith, true,
  false, some, leb, ◌==◌, if◌then◌else◌, ℕ_discrete,
}
use zxlib.Prelude.Family.{update}
use zxlib.Dict.Nodes.{
  ℤ, pos, negsuc, DictList, is_behind, is_before, from_front, get_at, push_last, push_before,
  dict_list_push_3_imple,
}
use zxlib.Dict.Linked.{IsLinked, Holds, get_at-Holds, get_at_data, get_at-node, get_at-fast}
use zxlib.Dict.Search.{behind_here, before_here, get_node_inside, from_front_lt}
use zxlib.Dict.Insert.{inserted, push_before-IsLinked, push_last-IsLinked}

-- Where what is put comes to stand among `n`.
abbrev pub place : ℕ → ℤ → ℕ
place n (pos k) = if leb n k then n else k
place n (negsuc k) = if leb n k then 0 else n - 1 - k

with_data-Holds :
    {n : ℕ} {value node : ℕ → ℕ} {dl : DictList} (a d : ℕ)
    → ((j : ℕ) → j < n → node j ≢ a)
    → Holds n value node dl
    → Holds n value node (record dl { data_of = update dl.data_of a d })
with_data-Holds a d fresh h =
    let l = h.linked in
    record {
      linked = record {
        members = l.members;
        distinct = l.distinct;
        head_none = l.head_none;
        head_first = l.head_first;
        tail_last = l.tail_last;
        forth = l.forth;
        next_none = l.next_none;
        back = l.back;
        prev_none = l.prev_none;
        fast = l.fast;
      };
      length_of = h.length_of;
      values = λ j p. ground (arith, fresh j p, h.values j p);
    }

module _ {n : ℕ} {value node : ℕ → ℕ} {dl : DictList} {a d : ℕ} (some_node : a ≢ 0)
    (fresh : (j : ℕ) → j < n → node j ≢ a) (h : Holds n value node dl)
    (put : dl.data_of a ≡ d) where
  fresh_here : (j : ℕ) → j < dl.size → node j ≢ a
  fresh_here j p = fresh j (rw (← h.length_of) p)

  push_before-Holds :
      (k : ℕ)
      → k < n
      → (dl.fast_node ≢ 0 → k ≤ dl.fast_num)
      → Holds (n + 1) (inserted value k d) (inserted node k a) (push_before a (node k) dl)
  unfolding push_before
  push_before-Holds k lt near = record {
    linked = push_before-IsLinked h.linked some_node fresh_here k (rw h.length_of lt) near;
    length_of = ap (λ (m : ℕ). m + 1) h.length_of;
    values = λ j p. ground (arith, put, h.values j, h.values (j - 1));
  }

  push_last-Holds : Holds (n + 1) (inserted value n d) (inserted node n a) (push_last a dl)
  unfolding push_last
  push_last-Holds = record {
    linked =
        subst (λ (k : ℕ). IsLinked (inserted node k a) (push_last a dl)) h.length_of
          (push_last-IsLinked h.linked some_node fresh_here);
    length_of = ap (λ (m : ℕ). m + 1) h.length_of;
    values = λ j p. ground (arith, put, h.values j, h.values (j - 1));
  }

place_behind : (n : ℕ) (num : ℤ) → is_behind n num ≡ true → place n num ≡ n
place_behind n (pos k) e = rw e refl
place_behind n (negsuc k) e = cc

place_before : (n : ℕ) (num : ℤ) → is_before n num ≡ true → place n num ≡ 0
place_before n (pos k) e = cc
place_before n (negsuc k) e = rw e refl

place_inside :
    (n : ℕ) (num : ℤ)
    → is_behind n num ≡ false
    → is_before n num ≡ false
    → place n num ≡ from_front n num
place_inside n (pos k) e f = rw e refl
place_inside n (negsuc k) e f = rw f refl

-- `dict_list_push` puts its data at the place that the index names, in front where the index is too
-- small and last where it is too large, and shifts what stands behind. Only in an empty list must
-- the index not be negative. `a` is a new node.
pub dict_list_push_3_imple-Holds :
    {n : ℕ} {value node : ℕ → ℕ} {dl : DictList} (a d : ℕ) (num : ℤ)
    → a ≢ 0
    → ((j : ℕ) → j < n → node j ≢ a)
    → Holds n value node dl
    → (n ≡ 0 → is_before 0 num ≡ false)
    → (dl' : DictList) × (dict_list_push_3_imple dl a d num ≡ some dl')
      × Holds (n + 1) (inserted value (place n num) d) (inserted node (place n num) a) dl'
unfolding dict_list_push_3_imple
dict_list_push_3_imple-Holds {n} {value} {node} {dl} a d num some_node fresh h never =
    elim (Bool-cases (is_behind n num)) [
      | inl t ↦ (
        push_last a dl1,
        rw (behind_here dl num h.length_of t) refl,
        at_place n (place_behind n num t) (push_last-Holds some_node fresh h1 stored),
      )
      | inr f ↦ elim (Bool-cases (is_before n num)) [
        | inl t ↦ (
          push_before a dl.head dl1,
          rw
              (
                behind_here dl num h.length_of f,
                before_here dl num h.length_of t,
                head_test (not_empty t),
              )
              refl,
          at_place 0 (place_before n num t) (
              subst
                (λ (p : ℕ).
                  Holds (n + 1) (inserted value 0 d) (inserted node 0 a) (push_before a p dl1))
                (sym (h.linked.head_first (rw h.length_of (not_empty t))))
                (push_before-Holds some_node fresh h1 stored 0 (not_empty t) (λ ne. omega arith))),
        )
        | inr f' ↦ (
          push_before a (node k) (get_at dl1 k).1,
          rw
              (
                behind_here dl num h.length_of f,
                before_here dl num h.length_of f',
                get_node_inside dl1 num h.length_of f f',
                get_at-node h1.linked k (rw h.length_of (from_front_lt n num f f')),
              )
              refl,
          at_place k (place_inside n num f f') (
              push_before-Holds some_node fresh (get_at-Holds k (from_front_lt n num f f') h1)
                (ap (λ (m : ℕ → ℕ). m a) (get_at_data dl1 k) ∙ stored) k (from_front_lt n num f f')
                (λ ne. omega (
                  arith,
                  (get_at-fast h1.linked k (rw h.length_of (from_front_lt n num f f'))).1,
                ))),
        )
      ]
    ]
  where
    k : ℕ
    k = from_front n num

    dl1 : DictList
    dl1 = record dl { data_of = update dl.data_of a d }

    h1 : Holds n value node dl1
    h1 = with_data-Holds a d fresh h

    stored : dl1.data_of a ≡ d
    stored = ground arith

    at_place :
        (k : ℕ) {dl' : DictList}
        → place n num ≡ k
        → Holds (n + 1) (inserted value k d) (inserted node k a) dl'
        → Holds (n + 1) (inserted value (place n num) d) (inserted node (place n num) a) dl'
    at_place k {dl'} e g =
        subst (λ (m : ℕ). Holds (n + 1) (inserted value m d) (inserted node m a) dl') (sym e) g

    not_empty : is_before n num ≡ true → 0 < n
    not_empty t = elim (ℕ_discrete n 0) [
      | yes e ↦ ground (arith, never e, ap (λ (m : ℕ). is_before m num) e, t)
      | no ne ↦ omega arith
    ]

    head_test : 0 < n → (dl.head == 0) ≡ false
    head_test p = ground (arith, h.linked.head_first, h.length_of, h.linked.members 0)
