-- ===== src/Queue/ListOf.antt =====
-- The list under the queue is that of klib: what queue.c relies on, as an interface.
use zxlib.Prelude.{ℕ, ◌≡◌, Option, some, List, [], ◌∷◌, ◌++◌, length}

-- `list_t` of pointers of type `V`, with `list_push`, `list_pop` and the field `size`. A pop gives
-- NULL on an empty list, which is `none`. `items` are its members, the oldest first.
pub record ListOf (V : Type 0) : Type 1 where
  pub Carrier : Type 0
  pub list_new : Carrier
  pub list_push : Carrier → V → Carrier
  pub list_pop : Carrier → Option V × Carrier
  pub list_size : Carrier → ℕ
  pub items : Carrier → List V
  pub items-list_new : items list_new ≡ []
  pub items-list_push : (l : Carrier) (v : V) → items (list_push l v) ≡ items l ++ v ∷ []
  pub list_pop_front :
      (l : Carrier) (v : V) (vs : List V)
      → items l ≡ v ∷ vs
      → ((list_pop l).0 ≡ some v) × (items (list_pop l).1 ≡ vs)
  pub list_size-items : (l : Carrier) → list_size l ≡ length (items l)
