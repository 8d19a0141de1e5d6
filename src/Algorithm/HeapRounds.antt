-- ===== src/Algorithm/HeapRounds.antt =====
-- The heap sort.
use zxlib.Prelude.{
  ℕ, zero, suc, ◌-◌, ◌<◌, ◌≤◌, ◌≡◌, refl, subst, arith, Option, some, ℕ_discrete, dec_lt,
}
use zxlib.Algorithm.Arrays.{
  algorithm_swap, IsPermutation, IsPermutation-self, IsPermutation-trans, permutes_whole,
  swap-IsPermutation,
}
use zxlib.Algorithm.HeapSort.{
  for_some, algorithm_heap_max, heap_build, heap_round, algorithm_heap_sort,
}
use zxlib.Algorithm.Heap.{IsHeapFrom, IsHeapBut, algorithm_heap_max-Sifts, root_greatest}
use zxlib.Algorithm.Insert.{IsSortedUp, Sorts}

-- A loop of which each round ends.
for_some_inv {κ} :
    (P : ℕ → (ℕ → ℕ) → Type κ) (n : ℕ) (body : ℕ → (ℕ → ℕ) → Option (ℕ → ℕ)) (f : ℕ → ℕ)
    → ((i : ℕ) (g : ℕ → ℕ) → i < n → P i g → (h : ℕ → ℕ) × (body i g ≡ some h) × P (suc i) h)
    → P zero f
    → (g : ℕ → ℕ) × (for_some n body f ≡ some g) × P n g
unfolding for_some
for_some_inv P zero body f keep start = (f, refl, start)
for_some_inv P (suc n) body f keep start =
    let (g, e, p) = for_some_inv P n body f (λ i g lt q. keep i g (omega arith) q) start in
    let (h, e', p') = keep n g (omega arith) p in (h, rw e e', p')

-- A heap of the members from `lo` on.
record IsBuilt (lo n : ℕ) (f g : ℕ → ℕ) : Type 0 where
  heap : IsHeapFrom lo n g
  permutation : IsPermutation n f g

build_round :
    (lo n : ℕ) (f g : ℕ → ℕ)
    → IsBuilt (suc lo) n f g
    → (h : ℕ → ℕ) × (algorithm_heap_max g lo n ≡ some h) × IsBuilt lo n f h
build_round lo n f g b =
    let (h, e, s) = algorithm_heap_max-Sifts lo n lo g (record {
      edges = λ c p q r t. b.heap c p q (omega arith);
      bridged = λ c p q r t u. absurd (omega arith);
    }) in
    (h, e, record { heap = s.heap; permutation = IsPermutation-trans b.permutation s.permutation })

heap_build_lem : (n : ℕ) (f : ℕ → ℕ) → (g : ℕ → ℕ) × (heap_build f n ≡ some g) × IsBuilt 0 n f g
unfolding heap_build
heap_build_lem n f =
    let (g, e, b) =
      for_some_inv (λ k g. IsBuilt (n - k) n f g) n (λ k a. algorithm_heap_max a (n - 1 - k) n) f
        (λ k g lt b.
          subst
            (λ (lo : ℕ).
              (h : ℕ → ℕ) × (algorithm_heap_max g (n - 1 - k) n ≡ some h) × IsBuilt lo n f h)
            (back k lt)
            (build_round (n - 1 - k) n f g (subst (λ (lo : ℕ). IsBuilt lo n f g) (there k lt) b)))
        (record { heap = λ c p q r. absurd (omega arith); permutation = IsPermutation-self n f }) in
    (g, e, subst (λ (lo : ℕ). IsBuilt lo n f g) (all n) b)
  where
    back : (k : ℕ) → k < n → n - 1 - k ≡ n - suc k
    back k lt = omega arith

    there : (k : ℕ) → k < n → n - k ≡ suc (n - 1 - k)
    there k lt = omega arith

    all : (n : ℕ) → n - n ≡ 0
    all n = omega arith

-- The first `i` are a heap, and the others are in order and not smaller than any before them.
record IsParted (n i : ℕ) (f g : ℕ → ℕ) : Type 0 where
  heap : IsHeapFrom 0 i g
  parted : (a b : ℕ) → a ≤ b → i ≤ b → b < n → g a ≤ g b
  permutation : IsPermutation n f g

swap_parted :
    (n i : ℕ) (g : ℕ → ℕ)
    → i < n
    → IsHeapFrom 0 (suc i) g
    → ((a b : ℕ) → a ≤ b → suc i ≤ b → b < n → g a ≤ g b)
    → (a b : ℕ) → a ≤ b
    → i ≤ b
    → b < n
    → algorithm_swap 0 i g a ≤ algorithm_swap 0 i g b
unfolding algorithm_swap
swap_parted n i g lt h parted a b p q r = ground (
  arith,
  parted a b,
  parted 0 b,
  parted i b,
  root_greatest (suc i) g a h,
  root_greatest (suc i) g i h,
)

swap-IsHeapBut :
    (i : ℕ) (g : ℕ → ℕ) → IsHeapFrom 0 (suc i) g → IsHeapBut 0 i 0 (algorithm_swap 0 i g)
unfolding algorithm_swap
swap-IsHeapBut i g h = record {
  edges = λ c p q r t. ground (arith, h c);
  bridged = λ c p q r t u. absurd (omega arith);
}

heap_round_lem :
    (n i : ℕ) (f g : ℕ → ℕ)
    → i < n
    → IsParted n (suc i) f g
    → (h : ℕ → ℕ) × (heap_round i g ≡ some h) × IsParted n i f h
unfolding heap_round
heap_round_lem n i f g lt s =
    let (h, e, sifted) =
      algorithm_heap_max-Sifts 0 i 0 (algorithm_swap 0 i g) (swap-IsHeapBut i g s.heap) in
    let behind = sifted.permutation.same_rest in
    let swapped = swap_parted n i g lt s.heap s.parted in
    (
      h,
      e,
      record {
        heap = sifted.heap;
        parted = λ a b p q r. elim (dec_lt a i) [
          | yes before ↦ rw (behind b q) (
              sifted.bounded (algorithm_swap 0 i g b) (λ k lt'. swapped k b (omega arith) q r) a
                before)
          | no after ↦ rw (behind b q, behind a (omega arith)) (swapped a b p q r)
        ];
        permutation = IsPermutation-trans s.permutation (
            IsPermutation-trans (swap-IsPermutation 0 i g n (omega arith) lt)
              (permutes_whole i n (algorithm_swap 0 i g) h (omega arith) sifted.permutation));
      },
    )

heap_rounds :
    (n : ℕ) (f g : ℕ → ℕ)
    → IsBuilt 0 n f g
    → (h : ℕ → ℕ) × (for_some (n - 1) (λ k. heap_round (n - 1 - k)) g ≡ some h)
      × IsParted n (n - (n - 1)) f h
heap_rounds n f g b =
    for_some_inv (λ k h. IsParted n (n - k) f h) (n - 1) (λ k. heap_round (n - 1 - k)) g
      (λ k g lt s.
        subst (λ (i : ℕ). (h : ℕ → ℕ) × (heap_round (n - 1 - k) g ≡ some h) × IsParted n i f h)
          (back k lt)
          (heap_round_lem n (n - 1 - k) f g (omega arith)
            (subst (λ (i : ℕ). IsParted n i f g) (there k lt) s)))
      (subst (λ (i : ℕ). IsParted n i f g) (whole n)
        (record {
          heap = b.heap;
          parted = λ a c p q r. absurd (omega arith);
          permutation = b.permutation;
        }))
  where
    back : (k : ℕ) → k < n - 1 → n - 1 - k ≡ n - suc k
    back k lt = omega arith

    whole : (n : ℕ) → n ≡ n - 0
    whole n = omega arith

    there : (k : ℕ) → k < n - 1 → n - k ≡ suc (n - 1 - k)
    there k lt = omega arith

IsParted-sorted : (n i : ℕ) (f g : ℕ → ℕ) → i ≤ 1 → IsParted n i f g → IsSortedUp n n f g
IsParted-sorted n i f g le s = record {
  sorted = record {
    ordered = λ a b p q. elim (ℕ_discrete b 0) [
      | yes e ↦ let e' : a ≡ 0 = omega arith in rw (e, e') (omega arith)
      | no ne ↦ s.parted a b p (omega arith) q
    ];
  };
  permutation = s.permutation;
}

pub algorithm_heap_sort-IsSortedUp : (n : ℕ) (f : ℕ → ℕ) → Sorts n f (algorithm_heap_sort f n)
unfolding algorithm_heap_sort
algorithm_heap_sort-IsSortedUp n f =
    let (heap, e, b) = heap_build_lem n f in
    let (g, e', s) = heap_rounds n f heap b in
    (g, rw (e, algorithm_heap_sort) e', IsParted-sorted n (n - (n - 1)) f g (omega arith) s)
