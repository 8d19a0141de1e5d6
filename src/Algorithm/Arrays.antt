-- ===== src/Algorithm/Arrays.antt =====
-- Arrays as functions of the index, what it is to sort one, and swaps.
use zxlib.Prelude.{
  suc, zero, ◌-◌, subst, ℕ, ◌+◌, ◌<◌, ◌≤◌, ◌≡◌, ◌≢◌, refl, ap, ap₂, sym, ◌∙◌, arith, ◌==◌,
  if◌then◌else◌, ℕ_discrete,
}
use zxlib.Prelude.Family.{update}
use zxlib.Prelude.Loop.{sum_range, sum_range_ext, sum_range_change}

-- How often `v` stands among the first `n`.
unfoldable pub count : ℕ → (ℕ → ℕ) → ℕ → ℕ
count n f v = sum_range n (λ i. if f i == v then 1 else 0)

pub record IsSorted (n : ℕ) (f : ℕ → ℕ) : Type 0 where
  pub ordered : (i j : ℕ) → i ≤ j → j < n → f i ≤ f j

-- `g` has the first `n` members of `f`, each as often, and is like `f` behind them.
pub record IsPermutation (n : ℕ) (f g : ℕ → ℕ) : Type 0 where
  pub same_count : (v : ℕ) → count n g v ≡ count n f v
  pub same_rest : (i : ℕ) → n ≤ i → g i ≡ f i

pub IsPermutation-self : (n : ℕ) (f : ℕ → ℕ) → IsPermutation n f f
IsPermutation-self n f = record { same_count = λ v. refl; same_rest = λ i le. refl }

pub IsPermutation-trans :
    {n : ℕ} {f g h : ℕ → ℕ} → IsPermutation n f g → IsPermutation n g h → IsPermutation n f h
IsPermutation-trans p q = record {
  same_count = λ v. q.same_count v ∙ p.same_count v;
  same_rest = λ i le. q.same_rest i le ∙ p.same_rest i le;
}

-- What permutes a part permutes the whole.
IsPermutation-suc : (n : ℕ) (f g : ℕ → ℕ) → IsPermutation n f g → IsPermutation (suc n) f g
unfolding count sum_range
IsPermutation-suc n f g p = record {
  same_count = λ v.
      ap₂ ◌+◌ (p.same_count v)
        (ap (λ (t : ℕ). if t == v then 1 else 0) (p.same_rest n (omega arith)));
  same_rest = λ i le. p.same_rest i (omega arith);
}

IsPermutation-more : (d n : ℕ) (f g : ℕ → ℕ) → IsPermutation n f g → IsPermutation (d + n) f g
IsPermutation-more zero n f g p = subst (λ (m : ℕ). IsPermutation m f g) (omega arith) p
IsPermutation-more (suc d) n f g p =
    subst (λ (m : ℕ). IsPermutation m f g) (omega arith)
      (IsPermutation-suc (d + n) f g (IsPermutation-more d n f g p))

pub permutes_whole : (i n : ℕ) (f g : ℕ → ℕ) → i ≤ n → IsPermutation i f g → IsPermutation n f g
permutes_whole i n f g le p =
    subst (λ (m : ℕ). IsPermutation m f g) (whole (omega arith))
      (IsPermutation-more (n - i) i f g p)
  where
    whole : i ≤ n → n - i + i ≡ n
    whole le = omega arith

-- `algorithm_swap(array[i], array[j])`
unfoldable pub algorithm_swap : ℕ → ℕ → (ℕ → ℕ) → ℕ → ℕ
algorithm_swap i j f = update (update f i (f j)) j (f i)

-- A total of which two members are put apart.
sum_range_two :
    (n i j : ℕ) (w : ℕ → ℕ)
    → i < n
    → j < n
    → i ≢ j
    → sum_range n w ≡ sum_range n (update (update w i 0) j 0) + w i + w j
sum_range_two n i j w p q ne =
    sum_range_change n i (w i) w (update w i 0) p (λ k r z. ground (arith, z)) (at_hole (w i))
    ∙ ap (λ (t : ℕ). t + w i)
        (sum_range_change n j (w j) (update w i 0) (update (update w i 0) j 0) q
          (λ k r z. ground (arith, z)) (ground (arith, ne)))
    ∙ omega arith
  where
    at_hole : (a : ℕ) → w i ≡ update w i 0 i + w i
    at_hole a = ground arith

-- 1 where `v` stands.
abbrev hit : ℕ → (ℕ → ℕ) → ℕ → ℕ
hit v f k = if f k == v then 1 else 0

module _ (i j : ℕ) (f : ℕ → ℕ) where
  pub swap_first : algorithm_swap i j f i ≡ f j
  unfolding algorithm_swap
  swap_first = ground arith

  pub swap_second : algorithm_swap i j f j ≡ f i
  unfolding algorithm_swap
  swap_second = ground arith

  pub swap_other : (k : ℕ) → k ≢ i → k ≢ j → algorithm_swap i j f k ≡ f k
  unfolding algorithm_swap
  swap_other k p q = ground arith

  swap_holes :
      (v k : ℕ)
      → update (update (hit v (algorithm_swap i j f)) i 0) j 0 k
        ≡ update (update (hit v f) i 0) j 0 k
  swap_holes v k = elim (ℕ_discrete k i) [
    | yes e ↦ ground (arith, e)
    | no ne ↦ elim (ℕ_discrete k j) [
      | yes e ↦ ground (arith, e)
      | no ne' ↦ ground (arith, swap_other k ne ne')
    ]
  ]

  pub swap-IsPermutation : (n : ℕ) → i < n → j < n → IsPermutation n f (algorithm_swap i j f)
  unfolding count
  swap-IsPermutation n p q = record {
    same_count = λ v. elim (ℕ_discrete i j) [
      | yes e ↦ sum_range_ext n (hit v (algorithm_swap i j f)) (hit v f) (λ k r. same_at e v k)
      | no ne ↦
          sum_range_two n i j (hit v (algorithm_swap i j f)) p q ne
          ∙ ap₂ ◌+◌
              (ap₂ ◌+◌
                (sum_range_ext n (update (update (hit v (algorithm_swap i j f)) i 0) j 0)
                  (update (update (hit v f) i 0) j 0) (λ k r. swap_holes v k))
                (ap (λ (t : ℕ). if t == v then 1 else 0) swap_first))
              (ap (λ (t : ℕ). if t == v then 1 else 0) swap_second)
          ∙ omega (arith, sum_range_two n i j (hit v f) p q ne)
    ];
    same_rest = λ k le. swap_other k (omega arith) (omega arith);
  }
    where
      same_at : i ≡ j → (v k : ℕ) → hit v (algorithm_swap i j f) k ≡ hit v f k
      same_at e v k = elim (ℕ_discrete k i) [
        | yes e' ↦
            ap (λ (t : ℕ). if t == v then 1 else 0)
              (ap (algorithm_swap i j f) e' ∙ swap_first ∙ ap f (sym e ∙ sym e'))
        | no ne ↦ ground (arith, swap_other k ne (omega arith))
      ]
