-- ===== src/Dict/Search.antt =====
-- `dict_list_get_node`.
use zxlib.Prelude.{
  Bool-cases, inl, inr, ◌||◌, ℕ, ◌<◌, ◌≡◌, refl, ap, ◌∙◌, arith, Bool, true, false, if◌then◌else◌,
}
use zxlib.Dict.Nodes.{
  ℤ, pos, negsuc, DictList, is_behind, is_before, from_front, get_at, dict_list_get_node,
}
use zxlib.Dict.Linked.{Holds, get_at-node, get_at-Holds}

pub from_front_lt :
    (n : ℕ) (num : ℤ) → is_behind n num ≡ false → is_before n num ≡ false → from_front n num < n
from_front_lt n (pos k) e f = ground arith
from_front_lt n (negsuc k) e f = ground arith

-- The three ways of `dict_list_get_node`.
module _ {n : ℕ} (dl : DictList) (num : ℤ) (e : dl.size ≡ n) where
  pub behind_here : {b : Bool} → is_behind n num ≡ b → is_behind dl.size num ≡ b
  behind_here t = ap (λ (m : ℕ). is_behind m num) e ∙ t

  pub before_here : {b : Bool} → is_before n num ≡ b → is_before dl.size num ≡ b
  before_here t = ap (λ (m : ℕ). is_before m num) e ∙ t

  pub get_node_behind : is_behind n num ≡ true → dict_list_get_node dl num ≡ (0, dl)
  unfolding dict_list_get_node
  get_node_behind t = rw (behind_here t) refl

  pub get_node_before :
      is_behind n num ≡ false → is_before n num ≡ true → dict_list_get_node dl num ≡ (0, dl)
  unfolding dict_list_get_node
  get_node_before f t = rw (behind_here f, before_here t) refl

  pub get_node_inside :
      is_behind n num ≡ false
      → is_before n num ≡ false
      → dict_list_get_node dl num ≡ get_at dl (from_front n num)
  unfolding dict_list_get_node
  get_node_inside f f' =
      rw (behind_here f, before_here f') (ap (λ (m : ℕ). get_at dl (from_front m num)) e)

-- `dict_list_get_node` returns the node at the index, counted from the end where it is negative, and
-- NULL where the index is out of range. The list stays as it is, linked, with whatever `fast` says
-- before and after.
pub dict_list_get_node-Holds :
    {n : ℕ} {value node : ℕ → ℕ} {dl : DictList} (num : ℤ)
    → Holds n value node dl
    → ((dict_list_get_node dl num).0
        ≡ (if is_behind n num || is_before n num then 0 else node (from_front n num)))
      × Holds n value node (dict_list_get_node dl num).1
dict_list_get_node-Holds {n} {value} {node} {dl} num h = elim (Bool-cases (is_behind n num)) [
  | inl t ↦ rw (get_node_behind dl num h.length_of t, t) (refl, h)
  | inr f ↦ elim (Bool-cases (is_before n num)) [
    | inl t ↦ rw (get_node_before dl num h.length_of f t, f, t) (refl, h)
    | inr f' ↦
        let lt = from_front_lt n num f f' in
        rw (get_node_inside dl num h.length_of f f', f, f')
          (
            get_at-node h.linked (from_front n num) (rw h.length_of lt),
            get_at-Holds (from_front n num) lt h,
          )
  ]
]
