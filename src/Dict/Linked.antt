-- ===== src/Dict/Linked.antt =====
-- What a well-linked list is, and the walk to an index.
use zxlib.Prelude.{
  lt→ltb, ge→ltb, ℕ, zero, suc, ◌+◌, ◌-◌, ◌/◌, ◌<◌, ◌≤◌, ◌≡◌, ◌≢◌, refl, ap, sym, subst, ◌∙◌, arith,
  Bool, true, false, not, ltb, ◌==◌, if◌then◌else◌, ℕ_discrete, dec_lt,
}
use zxlib.Dict.Nodes.{DictList, walk, walk_to, get_at}

-- The nodes of `dl` in their order are `node 0`, `node 1` and so on.
pub record IsLinked (node : ℕ → ℕ) (dl : DictList) : Type 0 where
  pub members : (k : ℕ) → k < dl.size → node k ≢ 0
  pub distinct : (i j : ℕ) → i < dl.size → j < dl.size → node i ≡ node j → i ≡ j
  pub head_none : dl.size ≡ 0 → dl.head ≡ 0
  pub head_first : 0 < dl.size → dl.head ≡ node 0
  pub tail_last : 0 < dl.size → dl.tail ≡ node (dl.size - 1)
  pub forth : (k : ℕ) → k + 1 < dl.size → dl.next (node k) ≡ node (k + 1)
  pub next_none : (k : ℕ) → k + 1 ≡ dl.size → dl.next (node k) ≡ 0
  pub back : (k : ℕ) → k + 1 < dl.size → dl.prev (node (k + 1)) ≡ node k
  pub prev_none : 0 < dl.size → dl.prev (node 0) ≡ 0
  pub fast : dl.fast_node ≢ 0 → (dl.fast_num < dl.size) × (dl.fast_node ≡ node dl.fast_num)

module _ {node : ℕ → ℕ} {dl : DictList} (l : IsLinked node dl) where
  pub prev_zero : (k : ℕ) → k < dl.size → k ≡ 0 → dl.prev (node k) ≡ 0
  prev_zero k lt e = rw e (l.prev_none (omega arith))

  pub prev_one : (k : ℕ) → k < dl.size → k ≢ 0 → dl.prev (node k) ≡ node (k - 1)
  prev_one k lt ne =
      let e : k ≡ k - 1 + 1 = omega arith in
      ap (λ (j : ℕ). dl.prev (node j)) e ∙ l.back (k - 1) (omega arith)

  pub prev_some : (k : ℕ) → k < dl.size → k ≢ 0 → dl.prev (node k) ≢ 0
  prev_some k lt ne e = l.members (k - 1) (omega arith) (sym (prev_one k lt ne) ∙ e)

  walk_forth : (d k : ℕ) → k + d < dl.size → walk d dl.next (node k) ≡ node (k + d)
  unfolding walk
  walk_forth zero k p = ap node (omega arith)
  walk_forth (suc d) k p =
      ground (arith, l.members k, l.forth k, walk_forth d (k + 1) (omega arith))

  walk_back : (d k : ℕ) → k + d < dl.size → walk d dl.prev (node (k + d)) ≡ node k
  unfolding walk
  walk_back zero k p = ap node (omega arith)
  walk_back (suc d) k p =
      ground (arith, l.members (k + suc d), l.back (k + d), walk_back d k (omega arith))

  -- From either end of a range that holds the index.
  walk_near :
      (a b k : ℕ)
      → a ≤ k
      → k ≤ b
      → b < dl.size
      → (if ltb ((a + b) / 2) k
          then walk (b - k) dl.prev (node b)
          else walk (k - a) dl.next (node a))
        ≡ node k
  walk_near a b k p q r = elim (dec_lt ((a + b) / 2) k) [
    | yes lt ↦ rw (lt→ltb ((a + b) / 2) k lt) (
        subst (λ (i : ℕ). walk (b - k) dl.prev (node i) ≡ node k) (omega arith)
          (walk_back (b - k) k (omega arith)))
    | no ge ↦
        rw (ge→ltb ((a + b) / 2) k (omega arith))
          (walk_forth (k - a) a (omega arith) ∙ ap node (omega arith))
  ]

  walk_to_lem : (k : ℕ) → k < dl.size → walk_to dl k ≡ node k
  unfolding walk_to
  walk_to_lem k p = elim (ℕ_discrete dl.fast_node 0) [
    | yes e ↦
        rw (e, l.head_first (omega arith), l.tail_last (omega arith))
          (walk_near 0 (dl.size - 1) k (omega arith) (omega arith) (omega arith))
    | no ne ↦
        let (there, e) = l.fast ne in
        elim (dec_lt dl.fast_num k) [
          | yes after ↦
              rw
                (
                  ne→test ne,
                  lt→ltb dl.fast_num k after,
                  ge→ltb k dl.fast_num (omega arith),
                  ap dl.next e ∙ l.forth dl.fast_num (omega arith),
                  l.tail_last (omega arith),
                )
                (walk_near (dl.fast_num + 1) (dl.size - 1) k (omega arith) (omega arith)
                  (omega arith))
          | no not_after ↦ elim (dec_lt k dl.fast_num) [
            | yes ahead ↦
                rw
                  (
                    ne→test ne,
                    ge→ltb dl.fast_num k (omega arith),
                    lt→ltb k dl.fast_num ahead,
                    ap dl.prev (e ∙ ap node (one_on dl.fast_num (omega arith)))
                        ∙ l.back (dl.fast_num - 1) (omega arith),
                    l.head_first (omega arith),
                  )
                  (walk_near 0 (dl.fast_num - 1) k (omega arith) (omega arith) (omega arith))
            | no not_ahead ↦
                rw
                  (
                    ne→test ne,
                    ge→ltb dl.fast_num k (omega arith),
                    ge→ltb k dl.fast_num (omega arith),
                    l.head_first (omega arith),
                    l.tail_last (omega arith),
                  )
                  (walk_near 0 (dl.size - 1) k (omega arith) (omega arith) (omega arith))
          ]
        ]
  ]
    where
      ne→test : {n : ℕ} → n ≢ 0 → (n == 0) ≡ false
      ne→test ne = ground (arith, ne)

      one_on : (n : ℕ) → 0 < n → n ≡ n - 1 + 1
      one_on n p = omega arith

  pub get_at-node : (k : ℕ) → k < dl.size → (get_at dl k).0 ≡ node k
  unfolding get_at
  get_at-node k p = ground (arith, walk_to_lem k p, l.fast)

  pub get_at-IsLinked : (k : ℕ) → k < dl.size → IsLinked node (get_at dl k).1
  unfolding get_at
  get_at-IsLinked k p = either (not (dl.fast_node == 0)) (k == dl.fast_num)
    where
      remembered : IsLinked node (record dl { fast_node = walk_to dl k; fast_num = k })
      remembered = record {
        members = l.members;
        distinct = l.distinct;
        head_none = l.head_none;
        head_first = l.head_first;
        tail_last = l.tail_last;
        forth = l.forth;
        next_none = l.next_none;
        back = l.back;
        prev_none = l.prev_none;
        fast = λ f. (p, walk_to_lem k p);
      }

      either :
          (b c : Bool)
          → IsLinked node
              (if◌then◌else◌ {A = ℕ × DictList} b
                (if◌then◌else◌ {A = ℕ × DictList} c
                  (dl.fast_node, dl)
                  (walk_to dl k, record dl { fast_node = walk_to dl k; fast_num = k }))
                (walk_to dl k, record dl { fast_node = walk_to dl k; fast_num = k })).1
      either true true = l
      either true false = remembered
      either false c = remembered

  -- What `fast` says after the search.
  pub get_at-fast :
      (k : ℕ)
      → k < dl.size
      → ((get_at dl k).1.fast_node ≡ node k)
        × ((get_at dl k).1.fast_num ≡ k)
        × ((get_at dl k).1.size ≡ dl.size)
  unfolding get_at
  get_at-fast k p = ground (arith, walk_to_lem k p, l.fast)

-- The list of the values `value 0` to `value (n - 1)`, at the addresses `node`.
pub record Holds (n : ℕ) (value node : ℕ → ℕ) (dl : DictList) : Type 0 where
  pub linked : IsLinked node dl
  pub length_of : dl.size ≡ n
  pub values : (j : ℕ) → j < n → dl.data_of (node j) ≡ value j

pub get_at_data : (dl : DictList) (k : ℕ) → (get_at dl k).1.data_of ≡ dl.data_of
unfolding get_at
get_at_data dl k = either (not (dl.fast_node == 0)) (k == dl.fast_num)
  where
    either :
        (b c : Bool)
        → (if◌then◌else◌ {A = ℕ × DictList} b
            (if◌then◌else◌ {A = ℕ × DictList} c
              (dl.fast_node, dl)
              (walk_to dl k, record dl { fast_node = walk_to dl k; fast_num = k }))
            (walk_to dl k, record dl { fast_node = walk_to dl k; fast_num = k })).1.data_of
          ≡ dl.data_of
    either true true = refl
    either true false = refl
    either false c = refl

pub get_at-Holds :
    {n : ℕ} {value node : ℕ → ℕ} {dl : DictList} (k : ℕ)
    → k < n
    → Holds n value node dl
    → Holds n value node (get_at dl k).1
get_at-Holds {node} {dl} k lt h =
    let p : k < dl.size = rw (h.length_of) lt in
    record {
      linked = get_at-IsLinked h.linked k p;
      length_of = (get_at-fast h.linked k p).2 ∙ h.length_of;
      values = λ j q. ap (λ (d : ℕ → ℕ). d (node j)) (get_at_data dl k) ∙ h.values j q;
    }
