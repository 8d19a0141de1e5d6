-- ===== src/Fastcache/Slots.antt =====
-- The search for a free slot ends, if there is one.
use zxlib.Prelude.{
  ℕ, zero, suc, ◌+◌, ◌-◌, ◌%◌, ◌<◌, ◌≡◌, ◌≢◌, refl, ap, ◌∙◌, arith, some, ◌==◌, if◌then◌else◌,
  ℕ_discrete, leb,
}
use zxlib.Prelude.Family.{update}
use zxlib.Prelude.Loop.{sum_range, sum_range_change}
use zxlib.Fastcache.HashOf.{HashOf}
use zxlib.Fastcache.Node.{find_free}
use native.Mathlib.Nat.{mod-eq_of_lt, mod_self}

-- 1 for a slot in use.
abbrev pub in_use : (ℕ → ℕ) → ℕ → ℕ
in_use index_s i = if index_s i == 0 then 0 else 1

pub used : ℕ → (ℕ → ℕ) → ℕ
used block index_s = sum_range block (in_use index_s)

pub used-new : (block : ℕ) → used block (λ i. 0) ≡ 0
unfolding used sum_range
used-new zero = refl
used-new (suc block) = omega (arith, used-new block)

-- Fewer in use than there are: one is free.
pub used-lt :
    (block : ℕ) (index_s : ℕ → ℕ)
    → used block index_s < block
    → (k : ℕ) × (k < block) × (index_s k ≡ 0)
unfolding used sum_range
used-lt zero index_s h = absurd (omega arith)
used-lt (suc block) index_s h = elim (ℕ_discrete (index_s block) 0) [
  | yes e ↦ (block, omega arith, e)
  | no ne ↦ let (k, lt, e) = used-lt block index_s (ground arith) in (k, omega arith, e)
]

pub used-fill :
    (block j v : ℕ) (index_s : ℕ → ℕ)
    → j < block
    → index_s j ≡ 0
    → v ≢ 0
    → used block (update index_s j v) ≡ used block index_s + 1
unfolding used
used-fill block j v index_s lt e ne =
    sum_range_change block j 1 (in_use (update index_s j v)) (in_use index_s) lt
      (λ i p q. ground arith) (ground arith)

pub used-free :
    (block j : ℕ) (index_s : ℕ → ℕ)
    → j < block
    → index_s j ≢ 0
    → used block index_s ≡ used block (update index_s j 0) + 1
unfolding used
used-free block j index_s lt ne =
    sum_range_change block j 1 (in_use index_s) (in_use (update index_s j 0)) lt
      (λ i p q. ground arith) (ground arith)

next_slot : (block i : ℕ) → i < block → (i + 1) % block ≡ (if i + 1 == block then 0 else i + 1)
next_slot block i h = elim (ℕ_discrete (i + 1) block) [
  | yes e ↦ rw e (ground (arith, mod_self block))
  | no ne ↦ let lt : i + 1 < block = omega arith in rw (mod-eq_of_lt lt) (ground arith)
]

-- How far it is from `i` to `k`, round the end.
pub distance : (block i k : ℕ) → ℕ
distance block i k = if leb i k then k - i else k + block - i

module _ (lib : HashOf) where
  pub find_free_total :
      (fuel : ℕ) (index_s : ℕ → ℕ) (block i k : ℕ)
      → i < block
      → k < block
      → index_s k ≡ 0
      → distance block i k < fuel
      → (j : ℕ) × (find_free lib fuel index_s block i ≡ some j) × (j < block) × (index_s j ≡ 0)
  unfolding find_free distance
  find_free_total zero index_s block i k p q e d = absurd (ground arith)
  find_free_total (suc fuel) index_s block i k p q e d = elim (ℕ_discrete (index_s i) 0) [
    | yes f ↦ (i, ground arith, p, f)
    | no ne ↦
        let next = next_slot block i p in
        let (j, r, lt, f) =
          find_free_total fuel index_s block ((i + 1) % block) k (ground (arith, next)) q e
            (ground (arith, next, λ (z : i ≡ k). ne (ap index_s z ∙ e))) in
        (j, ground (arith, r), lt, f)
  ]

  -- The distance is below the number of slots.
  pub find_free_lem :
      (index_s : ℕ → ℕ) (block i : ℕ)
      → i < block
      → used block index_s < block
      → (j : ℕ) × (find_free lib block index_s block i ≡ some j) × (j < block) × (index_s j ≡ 0)
  unfolding distance
  find_free_lem index_s block i p u =
      let (k, lt, e) = used-lt block index_s u in
      find_free_total block index_s block i k p lt e (ground arith)
