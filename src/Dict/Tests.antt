-- ===== src/Dict/Tests.antt =====
-- A list of three.
use zxlib.Prelude.{ℕ, ◌+◌, ◌*◌, ◌≡◌, refl, arith, false, some, ◌==◌, if◌then◌else◌}
use zxlib.Dict.Nodes.{
  pos, negsuc, DictList, dict_list_get_node, dict_list_push_3_imple, dict_list_pop_3_imple,
  dict_list_del, walk, walk_to, get_at,
}
use zxlib.Dict.Linked.{Holds}
use zxlib.Dict.Insert.{inserted}
use zxlib.Dict.Push.{dict_list_push_3_imple-Holds}
use zxlib.Dict.Unlink.{removed}
use zxlib.Dict.Pop.{dict_list_pop_3_imple-Holds}
use zxlib.Dict.Stale.{dict_list_pop_3_imple_stale}

-- The nodes 10, 20 and 30 with the data 1, 2 and 3.
abbrev three : DictList
three = record {
  next = λ p. if p == 10 then 20 else if p == 20 then 30 else 0;
  prev = λ p. if p == 20 then 10 else if p == 30 then 20 else 0;
  data_of = λ p. if p == 10 then 1 else if p == 20 then 2 else 3;
  head = 10;
  tail = 30;
  size = 3;
  fast_node = 0;
  fast_num = 0;
}

abbrev node : ℕ → ℕ
node k = 10 * (k + 1)

abbrev value : ℕ → ℕ
value k = k + 1

three-Holds : Holds 3 value node three
three-Holds = record {
  linked = record {
    members = λ k p. omega arith;
    distinct = λ i j p q e. omega (arith, e);
    head_none = λ e. cc;
    head_first = λ p. refl;
    tail_last = λ p. refl;
    forth = λ k p. ground arith;
    next_none = λ k p. ground (arith, p);
    back = λ k p. ground arith;
    prev_none = λ p. refl;
    fast = λ ne. absurd (ne refl);
  };
  length_of = refl;
  values = λ j p. ground arith;
}

test-get : (dict_list_get_node three (negsuc 0)).0 ≡ 30
unfolding dict_list_get_node get_at walk_to walk
test-get = refl

test-del : (dict_list_del three (pos 3)).0 ≡ false
unfolding dict_list_del dict_list_get_node
test-del = refl

dict_list_push_3_imple-Holds_example :
    (dl : DictList) × (dict_list_push_3_imple three 40 9 (pos 1) ≡ some dl)
    × Holds 4 (inserted value 1 9) (inserted node 1 40) dl
dict_list_push_3_imple-Holds_example =
    dict_list_push_3_imple-Holds 40 9 (pos 1) (λ e. omega (arith, e)) (λ j p e. omega (arith, e))
      three-Holds (λ e. refl)

dict_list_pop_3_imple-Holds_example :
    ((dict_list_pop_3_imple three (pos 1)).0 ≡ some 2)
    × Holds 2 (removed value 1) (removed node 1) (dict_list_pop_3_imple three (pos 1)).1
dict_list_pop_3_imple-Holds_example =
    dict_list_pop_3_imple-Holds (pos 1) (omega arith) three-Holds (λ e. refl)

dict_list_pop_3_imple_stale_example :
    let popped = (dict_list_pop_3_imple (dict_list_get_node three (pos 1)).1 (pos 0)).1 in
    Holds 2 (removed value 0) (removed node 0) (record popped { fast_node = 0 })
    × (popped.data_of (dict_list_get_node popped (pos 1)).0 ≡ 2)
dict_list_pop_3_imple_stale_example = dict_list_pop_3_imple_stale 1 (omega arith) three-Holds
