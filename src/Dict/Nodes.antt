-- ===== src/Dict/Nodes.antt =====
-- A `dict_list` and its nodes: what a thread does that has the lock. A pointer is a number, NULL 0,
-- and a field of the nodes a function of the address. The `fast` field remembers the last node that
-- was looked for, with its index.
use zxlib.Prelude.{
  ℕ, zero, suc, ◌+◌, ◌-◌, ◌/◌, Bool, true, false, Option, none, some, not, ltb, leb, ◌==◌,
  if◌then◌else◌,
}
use zxlib.Prelude.Family.{update}

-- An int: `negsuc n` is - 1 - n.
pub data ℤ : Type 0 where
  pos : ℕ → ℤ
  negsuc : ℕ → ℤ

pub record DictList : Type 0 where
  pub next : ℕ → ℕ
  pub prev : ℕ → ℕ
  pub data_of : ℕ → ℕ
  pub head : ℕ
  pub tail : ℕ
  pub size : ℕ
  pub fast_node : ℕ
  pub fast_num : ℕ

-- Whether `num > size - 1`, and whether `num < - size`.
abbrev pub is_behind : ℕ → ℤ → Bool
is_behind size (pos n) = leb size n
is_behind size (negsuc n) = false

abbrev pub is_before : ℕ → ℤ → Bool
is_before size (pos n) = false
is_before size (negsuc n) = leb size n

-- Whether `num < - size || num == 0`.
abbrev pub is_front : ℕ → ℤ → Bool
is_front size (pos n) = n == 0
is_front size (negsuc n) = leb size n

-- `num`, or `num + size` where it is negative.
abbrev pub from_front : ℕ → ℤ → ℕ
from_front size (pos n) = n
from_front size (negsuc n) = size - 1 - n

-- `for(; likely(dln) && …; dln = dln->next)`, `d` times at most.
unfoldable pub walk : ℕ → (ℕ → ℕ) → ℕ → ℕ
walk zero step dln = dln
walk (suc d) step dln = let rest = walk d step (step dln) in if dln == 0 then dln else rest

-- The walk to the index `num` from the nearer end of the range, which `fast` narrows.
unfoldable pub walk_to : DictList → ℕ → ℕ
walk_to dl num =
    let behind = not (dl.fast_node == 0) in
    let after = if behind then ltb dl.fast_num num else false in
    let ahead = if behind then ltb num dl.fast_num else false in
    let dln_s = if after then dl.next dl.fast_node else dl.head in
    let num_s = if after then dl.fast_num + 1 else 0 in
    let dln_e = if ahead then dl.prev dl.fast_node else dl.tail in
    let num_e = if ahead then dl.fast_num - 1 else dl.size - 1 in
    if ltb ((num_s + num_e) / 2) num
    then walk (num_e - num) dl.prev dln_e
    else walk (num - num_s) dl.next dln_s

-- The part of `dict_list_get_node` for an index in range: the node, and the list with its `fast`.
unfoldable pub get_at : DictList → ℕ → ℕ × DictList
get_at dl num =
    if not (dl.fast_node == 0)
    then (if num == dl.fast_num
        then (dl.fast_node, dl)
        else (walk_to dl num, record dl { fast_node = walk_to dl num; fast_num = num }))
    else (walk_to dl num, record dl { fast_node = walk_to dl num; fast_num = num })

unfoldable pub dict_list_get_node : DictList → ℤ → ℕ × DictList
dict_list_get_node dl num =
    if is_behind dl.size num
    then (0, dl)
    else if is_before dl.size num
    then (0, dl)
    else get_at dl (from_front dl.size num)

-- `node` becomes the last.
unfoldable pub push_last : (node : ℕ) → DictList → DictList
push_last node dl = record dl {
  next =
      if dl.head == 0 then update dl.next node 0 else update (update dl.next node 0) dl.tail node;
  prev = update dl.prev node (if dl.head == 0 then 0 else dl.tail);
  head = if dl.head == 0 then node else dl.head;
  tail = node;
  size = dl.size + 1;
}

-- `node` goes before `dln`.
unfoldable pub push_before : (node dln : ℕ) → DictList → DictList
push_before node dln dl = record dl {
  next =
      if dl.prev dln == 0
      then update dl.next node dln
      else update (update dl.next node dln) (dl.prev dln) node;
  prev = update (update dl.prev node (dl.prev dln)) dln node;
  head = if dl.prev dln == 0 then node else dl.head;
  size = dl.size + 1;
  fast_num = if dl.fast_node == 0 then dl.fast_num else dl.fast_num + 1;
}

-- `node` is what `lib_malloc` has returned, and `d` what is put. A negative `num` in an empty list
-- makes the source read through NULL.
unfoldable pub dict_list_push_3_imple : DictList → (node d : ℕ) → ℤ → Option DictList
dict_list_push_3_imple dl node d num =
    let with_data = record dl { data_of = update dl.data_of node d } in
    if is_behind dl.size num
    then some (push_last node with_data)
    else if is_before dl.size num
    then (if dl.head == 0 then none else some (push_before node dl.head with_data))
    else let (dln, found) = dict_list_get_node with_data num in some (push_before node dln found)

-- The node `dln` leaves the list, and `fast` is where it was.
unfoldable pub unlink : (dln : ℕ) → DictList → DictList
unlink dln dl = record dl {
  next = if dl.prev dln == 0 then dl.next else update dl.next (dl.prev dln) (dl.next dln);
  prev = if dl.next dln == 0 then dl.prev else update dl.prev (dl.next dln) (dl.prev dln);
  head = if dl.prev dln == 0 then dl.next dln else dl.head;
  tail = if dl.next dln == 0 then dl.prev dln else dl.tail;
  size = dl.size - 1;
  fast_node = dl.next dln;
}

-- The head leaves the list.
unfoldable pub pop_head : DictList → DictList
pop_head dl = record dl {
  prev = if dl.next dl.head == 0 then dl.prev else update dl.prev (dl.next dl.head) 0;
  head = dl.next dl.head;
  tail = if dl.next dl.head == 0 then 0 else dl.tail;
  size = dl.size - 1;
}

-- `dict_list_pop_3_imple` and the data it returns, `none` for `error`.
unfoldable pub dict_list_pop_3_imple : DictList → ℤ → Option ℕ × DictList
dict_list_pop_3_imple dl num =
    if dl.head == 0
    then (none, dl)
    else if is_front dl.size num
    then (some (dl.data_of dl.head), pop_head dl)
    else if is_behind dl.size num
    then (some (dl.data_of dl.tail), unlink dl.tail dl)
    else let (dln, found) = dict_list_get_node dl num in (some (dl.data_of dln), unlink dln found)

-- `dict_list_del`, and whether there was such a node; the source returns only the FALSE.
unfoldable pub dict_list_del : DictList → ℤ → Bool × DictList
dict_list_del dl num =
    let (dln, found) = dict_list_get_node dl num in
    if dln == 0 then (false, found) else (true, unlink dln found)

-- `dict_list_new`. `fast.num`, -1 in the source, is not read while `fast.node` is NULL.
abbrev pub dict_list_new : DictList
dict_list_new = record {
  next = λ p. 0;
  prev = λ p. 0;
  data_of = λ p. 0;
  head = 0;
  tail = 0;
  size = 0;
  fast_node = 0;
  fast_num = 0;
}
