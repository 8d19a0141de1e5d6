-- ===== src/Prelude/Loop.antt =====
-- `for(i = 0; i < n; i++)`, sums of ranges, and their rules.
use Prim.Native.Nat.{ℕ, zero, suc, ◌+◌, ◌*◌, ◌≤◌, ◌<◌}
use mathlib.Core.Path.{◌≡◌}
use mathlib.Core.Logic.{◌≢◌}
use native.Mathlib.Decide.{ℕ_discrete}
use native.Mathlib.Omega.{arith}

-- The last round is that of `n - 1`.
unfoldable pub for_up {ℓ} : {S : Type ℓ} → ℕ → (ℕ → S → S) → S → S
for_up zero body s = s
for_up (suc n) body s = body n (for_up n body s)

-- The rule of the loop: what holds before it and is kept by each round holds after it.
pub for_up_inv {ℓ κ} :
    {S : Type ℓ} (P : ℕ → S → Type κ) (n : ℕ) (body : ℕ → S → S) (s : S)
    → ((i : ℕ) (t : S) → i < n → P i t → P (suc i) (body i t))
    → P zero s
    → P n (for_up n body s)
unfolding for_up
for_up_inv P zero body s keep h = h
for_up_inv P (suc n) body s keep h =
    keep n (for_up n body s) (omega arith)
      (for_up_inv P n body s (λ i t q. keep i t (omega arith)) h)

-- `f[0] + … + f[n - 1]`
unfoldable pub sum_range : ℕ → (ℕ → ℕ) → ℕ
sum_range zero f = 0
sum_range (suc n) f = sum_range n f + f n

pub sum_range_mono :
    (n : ℕ) (f g : ℕ → ℕ) → ((i : ℕ) → i < n → f i ≤ g i) → sum_range n f ≤ sum_range n g
unfolding sum_range
sum_range_mono zero f g h = omega arith
sum_range_mono (suc n) f g h =
    omega (arith, sum_range_mono n f g (λ i p. h i (omega arith)), h n (omega arith))

pub sum_range_lt :
    (n k : ℕ) (f g : ℕ → ℕ)
    → k < n
    → ((i : ℕ) → i < n → f i ≤ g i)
    → f k < g k
    → sum_range n f < sum_range n g
unfolding sum_range
sum_range_lt zero k f g p h q = absurd (omega arith)
sum_range_lt (suc n) k f g p h q = elim (ℕ_discrete k n) [
  | yes e ↦ omega (arith, sum_range_mono n f g (λ i r. h i (omega arith)), last e)
  | no ne ↦
      omega
        (arith, sum_range_lt n k f g (omega arith) (λ i r. h i (omega arith)) q, h n (omega arith))
]
  where
    last : k ≡ n → f n < g n
    last e = rw (← e) q

pub le-sum_range : (n k : ℕ) (f : ℕ → ℕ) → k < n → f k ≤ sum_range n f
unfolding sum_range
le-sum_range zero k f p = absurd (omega arith)
le-sum_range (suc n) k f p = elim (ℕ_discrete k n) [
  | yes e ↦ rw e (omega arith)
  | no ne ↦ omega (arith, le-sum_range n k f (omega arith))
]

-- Two members of at least `m` make at least `2 * m`.
pub two-le-sum_range :
    (n j k m : ℕ) (f : ℕ → ℕ) → j < n → k < n → j ≢ k → m ≤ f j → m ≤ f k → 2 * m ≤ sum_range n f
unfolding sum_range
two-le-sum_range zero j k m f p q ne a b = absurd (omega arith)
two-le-sum_range (suc n) j k m f p q ne a b = elim (ℕ_discrete j n) [
  | yes e ↦ omega (arith, le-sum_range n k f (omega arith), here j e a)
  | no e ↦ elim (ℕ_discrete k n) [
    | yes e' ↦ omega (arith, le-sum_range n j f (omega arith), here k e' b)
    | no e' ↦ omega (arith, two-le-sum_range n j k m f (omega arith) (omega arith) ne a b)
  ]
]
  where
    here : (i : ℕ) → i ≡ n → m ≤ f i → m ≤ f n
    here i e h = rw (← e) h

pub sum_range-le : (n m : ℕ) (f : ℕ → ℕ) → ((i : ℕ) → i < n → f i ≤ m) → sum_range n f ≤ n * m
unfolding sum_range
sum_range-le zero m f h = omega arith
sum_range-le (suc n) m f h =
    grind (arith, sum_range-le n m f (λ i p. h i (omega arith)), h n (omega arith))

pub eq_zero_of_sum_range : (n k : ℕ) (f : ℕ → ℕ) → k < n → sum_range n f ≡ 0 → f k ≡ 0
eq_zero_of_sum_range n k f p h = omega (arith, le-sum_range n k f p)

-- The rounds before `k` keep `Q`, round `k` turns `Q` into `P`, and each round keeps `P`.
pub for_up_hits {ℓ κ} :
    {S : Type ℓ} (Q : ℕ → S → Type κ) (P : S → Type κ) (n k : ℕ) (body : ℕ → S → S) (s : S)
    → k < n
    → ((i : ℕ) (t : S) → i < k → Q i t → Q (suc i) (body i t))
    → ((i : ℕ) (t : S) → i < n → P t → P (body i t))
    → ((t : S) → Q k t → P (body k t))
    → Q zero s
    → P (for_up n body s)
unfolding for_up
for_up_hits Q P zero k body s p q keep hit h = absurd (omega arith)
for_up_hits Q P (suc n) k body s p q keep hit h = elim (ℕ_discrete k n) [
  | yes e ↦ rw (← e) (hit _ (for_up_inv Q k body s q h))
  | no ne ↦
      keep n _ (omega arith)
        (for_up_hits Q P n k body s (omega arith) q (λ i t lt. keep i t (omega arith)) hit h)
]

-- Two ranges that agree but at `k`.
pub sum_range_ext :
    (n : ℕ) (f g : ℕ → ℕ) → ((i : ℕ) → i < n → f i ≡ g i) → sum_range n f ≡ sum_range n g
unfolding sum_range
sum_range_ext zero f g h = omega arith
sum_range_ext (suc n) f g h =
    omega (arith, sum_range_ext n f g (λ i p. h i (omega arith)), h n (omega arith))

pub sum_range_change :
    (n k c : ℕ) (f g : ℕ → ℕ)
    → k < n
    → ((i : ℕ) → i < n → i ≢ k → f i ≡ g i)
    → f k ≡ g k + c
    → sum_range n f ≡ sum_range n g + c
unfolding sum_range
sum_range_change zero k c f g p h e = absurd (omega arith)
sum_range_change (suc n) k c f g p h e = elim (ℕ_discrete k n) [
  | yes q ↦ omega (arith, sum_range_ext n f g (λ i r. h i (omega arith) (omega arith)), last q)
  | no q ↦ omega (
    arith,
    sum_range_change n k c f g (omega arith) (λ i r. h i (omega arith)) e,
    h n (omega arith) (λ r. q (omega arith)),
  )
]
  where
    last : k ≡ n → f n ≡ g n + c
    last q = rw (← q) e
