-- ===== src/Algorithm/Counting.antt =====
-- How often a number stands in a stretch of an array.
use zxlib.Prelude.{
  ℕ, zero, suc, ◌+◌, ◌-◌, ◌<◌, ◌≤◌, ◌≡◌, refl, sym, ap, ap₂, ◌∙◌, arith, ◌==◌, if◌then◌else◌,
}
use zxlib.Prelude.Loop.{sum_range}
use zxlib.Algorithm.Arrays.{count}

abbrev pub hit : ℕ → ℕ → ℕ
hit v a = if a == v then 1 else 0

-- How often `v` stands among `d` members from `a` on.
unfoldable pub count_from : (a d : ℕ) → (ℕ → ℕ) → ℕ → ℕ
count_from a zero f v = 0
count_from a (suc d) f v = hit v (f a) + count_from (a + 1) d f v

pub count_front :
    (a e : ℕ) (f : ℕ → ℕ) (v : ℕ)
    → a < e
    → count_from a (e - a) f v ≡ hit v (f a) + count_from (a + 1) (e - (a + 1)) f v
unfolding count_from
count_front a e f v p = ap (λ (d : ℕ). count_from a d f v) more
  where
    more : e - a ≡ suc (e - (a + 1))
    more = omega (arith, p)

pub count_split :
    (a c d : ℕ) (f : ℕ → ℕ) (v : ℕ)
    → count_from a (c + d) f v ≡ count_from a c f v + count_from (a + c) d f v
unfolding count_from
count_split a zero d f v = ap₂ (λ (e b : ℕ). count_from b e f v) zero_plus plus_zero ∙ omega arith
  where
    zero_plus : 0 + d ≡ d
    zero_plus = omega arith

    plus_zero : a ≡ a + 0
    plus_zero = omega arith
count_split a (suc c) d f v =
    ap (λ (e : ℕ). count_from a e f v) one_on
    ∙ ap (λ (t : ℕ). hit v (f a) + t) (count_split (a + 1) c d f v)
    ∙ ap (λ (b : ℕ). hit v (f a) + (count_from (a + 1) c f v + count_from b d f v)) further
    ∙ omega arith
  where
    one_on : suc c + d ≡ suc (c + d)
    one_on = omega arith

    further : a + 1 + c ≡ a + suc c
    further = omega arith

pub count_last :
    (a d : ℕ) (f : ℕ → ℕ) (v : ℕ)
    → count_from a (d + 1) f v ≡ count_from a d f v + hit v (f (a + d))
unfolding count_from
count_last a d f v = count_split a d 1 f v ∙ omega arith

pub count_same :
    (a d : ℕ) (f g : ℕ → ℕ) (v : ℕ)
    → ((k : ℕ) → a ≤ k → k < a + d → f k ≡ g k)
    → count_from a d f v ≡ count_from a d g v
unfolding count_from
count_same a zero f g v h = refl
count_same a (suc d) f g v h =
    ap₂ ◌+◌ (ap (hit v) (h a (omega arith) (omega arith)))
      (count_same (a + 1) d f g v (λ k p q. h k (omega arith) (omega arith)))

pub count-count_from : (n : ℕ) (f : ℕ → ℕ) (v : ℕ) → count n f v ≡ count_from 0 n f v
unfolding count sum_range count_from
count-count_from zero f v = refl
count-count_from (suc n) f v =
    ap₂ ◌+◌ (count-count_from n f v) (ap (λ (i : ℕ). hit v (f i)) from_zero)
    ∙ sym (count_last 0 n f v)
    ∙ ap (λ (d : ℕ). count_from 0 d f v) one_more
  where
    from_zero : n ≡ 0 + n
    from_zero = omega arith

    one_more : n + 1 ≡ suc n
    one_more = omega arith

pub count_empty : (a e : ℕ) (f : ℕ → ℕ) (v : ℕ) → e ≤ a → count_from a (e - a) f v ≡ 0
unfolding count_from
count_empty a e f v p = ap (λ (d : ℕ). count_from a d f v) none_left
  where
    none_left : e - a ≡ 0
    none_left = omega (arith, p)

pub split_at :
    (a b c : ℕ) (f : ℕ → ℕ) (v : ℕ)
    → a ≤ b
    → b ≤ c
    → count_from a (c - a) f v ≡ count_from a (b - a) f v + count_from b (c - b) f v
split_at a b c f v p q =
    ap (λ (d : ℕ). count_from a d f v) whole
    ∙ count_split a (b - a) (c - b) f v
    ∙ ap (λ (e : ℕ). count_from a (b - a) f v + count_from e (c - b) f v) there
  where
    whole : c - a ≡ b - a + (c - b)
    whole = omega (arith, p, q)

    there : a + (b - a) ≡ b
    there = omega (arith, p)
