-- ===== src/Dict/Pop.antt =====
-- `dict_list_pop` and `dict_list_del`.
use zxlib.Prelude.{
  Bool-cases, inl, inr, ℕ, ◌+◌, ◌-◌, ◌<◌, ◌≡◌, refl, ap, sym, subst, ◌∙◌, arith, Bool, true, false,
  some, leb, ◌==◌, if◌then◌else◌,
}
use zxlib.Dict.Nodes.{
  ℤ, pos, negsuc, DictList, is_front, is_behind, is_before, from_front, unlink,
  dict_list_pop_3_imple, dict_list_del,
}
use zxlib.Dict.Linked.{Holds, get_at-Holds, get_at-node, get_at-fast}
use zxlib.Dict.Search.{behind_here, get_node_inside, from_front_lt}
use zxlib.Dict.Unlink.{removed, unlink-Holds, pop_head-Holds}

-- Which of `n` the index names: the first where it is too small, the last where it is too large.
abbrev pub pop_place : ℕ → ℤ → ℕ
pop_place n (pos k) = if leb n k then n - 1 else k
pop_place n (negsuc k) = if leb n k then 0 else n - 1 - k

front_place : (n : ℕ) (num : ℤ) → 0 < n → is_front n num ≡ true → pop_place n num ≡ 0
front_place n (pos k) p e = ground (arith, e)
front_place n (negsuc k) p e = rw e refl

behind_place : (n : ℕ) (num : ℤ) → is_behind n num ≡ true → pop_place n num ≡ n - 1
behind_place n (pos k) e = rw e refl
behind_place n (negsuc k) e = cc

not_before : (n : ℕ) (num : ℤ) → is_front n num ≡ false → is_before n num ≡ false
not_before n (pos k) e = refl
not_before n (negsuc k) e = e

inside_place :
    (n : ℕ) (num : ℤ)
    → is_front n num ≡ false
    → is_behind n num ≡ false
    → pop_place n num ≡ from_front n num
inside_place n (pos k) e f = rw f refl
inside_place n (negsuc k) e f = rw e refl

-- `dict_list_pop` takes out the member that the index names and returns its data, and what is left is
-- linked. When it takes the head by the index 0, or by one too small, `fast` must be empty.
pub dict_list_pop_3_imple-Holds :
    {n : ℕ} {value node : ℕ → ℕ} {dl : DictList} (num : ℤ)
    → 0 < n
    → Holds n value node dl
    → (is_front n num ≡ true → dl.fast_node ≡ 0)
    → ((dict_list_pop_3_imple dl num).0 ≡ some (value (pop_place n num)))
      × Holds
          (n - 1)
          (removed value (pop_place n num))
          (removed node (pop_place n num))
          (dict_list_pop_3_imple dl num).1
unfolding dict_list_pop_3_imple
dict_list_pop_3_imple-Holds {n} {value} {node} {dl} num p h clear =
    elim (Bool-cases (is_front n num)) [
      | inl t ↦
          rw (head_test, front_here t, front_place n num p t)
            (
              ap (λ (v : ℕ). some v) (ap dl.data_of (h.linked.head_first here) ∙ h.values 0 p),
              pop_head-Holds h p (clear t),
            )
      | inr f ↦ elim (Bool-cases (is_behind n num)) [
        | inl t ↦
            rw (head_test, front_here f, behind_here dl num h.length_of t, behind_place n num t)
              (
                ap (λ (v : ℕ). some v) (ap dl.data_of tail_here ∙ h.values (n - 1) (omega arith)),
                subst
                    (λ (m : ℕ).
                      Holds (n - 1) (removed value (n - 1)) (removed node (n - 1)) (unlink m dl))
                    (sym tail_here)
                    (unlink-Holds h (n - 1) (omega arith)
                      (λ ne. absurd (ne (h.linked.next_none (n - 1) last)))),
              )
        | inr f' ↦
            let k = from_front n num in
            let lt = from_front_lt n num f' (not_before n num f) in
            rw
              (
                head_test,
                front_here f,
                behind_here dl num h.length_of f',
                inside_place n num f f',
                get_node_inside dl num h.length_of f' (not_before n num f),
                get_at-node h.linked k (rw h.length_of lt),
              )
              (
                ap (λ (v : ℕ). some v) (h.values k lt),
                unlink-Holds (get_at-Holds k lt h) k lt
                    (λ ne. (get_at-fast h.linked k (rw h.length_of lt)).1),
              )
      ]
    ]
  where
    here : 0 < dl.size
    here = rw h.length_of p

    last : n - 1 + 1 ≡ dl.size
    last = rw h.length_of (omega arith)

    tail_here : dl.tail ≡ node (n - 1)
    tail_here = h.linked.tail_last here ∙ ap (λ (m : ℕ). node (m - 1)) h.length_of

    head_test : (dl.head == 0) ≡ false
    head_test = ground (arith, h.linked.head_first here, h.linked.members 0 here)

    front_here : {b : Bool} → is_front n num ≡ b → is_front dl.size num ≡ b
    front_here t = ap (λ (m : ℕ). is_front m num) h.length_of ∙ t

-- `dict_list_del` takes out the member at an index in range, and fails for any other.
pub dict_list_del-Holds :
    {n : ℕ} {value node : ℕ → ℕ} {dl : DictList} (num : ℤ)
    → Holds n value node dl
    → is_behind n num ≡ false
    → is_before n num ≡ false
    → ((dict_list_del dl num).0 ≡ true)
      × Holds
          (n - 1)
          (removed value (from_front n num))
          (removed node (from_front n num))
          (dict_list_del dl num).1
unfolding dict_list_del
dict_list_del-Holds {n} {value} {node} {dl} num h f f' =
    let k = from_front n num in
    let lt = from_front_lt n num f f' in
    let here : k < dl.size = rw h.length_of lt in
    rw (get_node_inside dl num h.length_of f f', get_at-node h.linked k here, member_test k here)
      (refl, unlink-Holds (get_at-Holds k lt h) k lt (λ ne. (get_at-fast h.linked k here).1))
  where
    member_test : (k : ℕ) → k < dl.size → (node k == 0) ≡ false
    member_test k p = ground (arith, h.linked.members k p)
