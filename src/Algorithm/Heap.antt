-- ===== src/Algorithm/Heap.antt =====
-- Heaps and `algorithm_heap_max`.
use zxlib.Prelude.{
  ℕ, zero, suc, ◌+◌, ◌-◌, ◌*◌, ◌/◌, ◌<◌, ◌≤◌, ◌≡◌, ◌≢◌, ◌⊎◌, refl, subst, arith, true, false,
  Option, some, leb, if◌then◌else◌, dec_lt, inl, inr, lt→ltb, ge→ltb,
}
use zxlib.Algorithm.Arrays.{
  algorithm_swap, IsPermutation, IsPermutation-self, IsPermutation-trans, swap-IsPermutation,
  swap_first, swap_second, swap_other,
}
use zxlib.Algorithm.HeapSort.{larger_child, heap_loop, algorithm_heap_max}

abbrev pub parent : ℕ → ℕ
parent c = (c - 1) / 2

-- Each of the first `n` whose parent is at `lo` or later is at most that parent.
abbrev pub IsHeapFrom : (lo n : ℕ) → (ℕ → ℕ) → Type 0
IsHeapFrom lo n f = (c : ℕ) → 0 < c → c < n → lo ≤ parent c → f c ≤ f (parent c)

-- The same but for the children of `h`.
pub record IsHeapBut (lo n h : ℕ) (f : ℕ → ℕ) : Type 0 where
  pub edges : (c : ℕ) → 0 < c → c < n → lo ≤ parent c → parent c ≢ h → f c ≤ f (parent c)
  pub bridged : (c : ℕ) → 0 < c → c < n → parent c ≡ h → 0 < h → lo ≤ parent h → f c ≤ f (parent h)

-- What becomes of an array while its heap is put in order.
pub record IsSifted (lo n : ℕ) (f g : ℕ → ℕ) : Type 0 where
  pub heap : IsHeapFrom lo n g
  pub permutation : IsPermutation n f g
  pub bounded : (b : ℕ) → ((k : ℕ) → k < n → f k ≤ b) → (k : ℕ) → k < n → g k ≤ b

record IsLargerChild (f : ℕ → ℕ) (h n m : ℕ) : Type 0 where
  child : (m ≡ h * 2 + 1) ⊎ (m ≡ h * 2 + 2)
  inside : m < n
  largest : (c : ℕ) → 0 < c → c < n → parent c ≡ h → f c ≤ f m

larger_child-IsLargerChild :
    (f : ℕ → ℕ) (h n : ℕ) → h * 2 + 1 < n → IsLargerChild f h n (larger_child f (h * 2 + 1) n)
unfolding larger_child
larger_child-IsLargerChild f h n lt = elim (dec_lt (h * 2 + 1 + 1) n) [
  | yes both ↦ elim (dec_lt (f (h * 2 + 1)) (f (h * 2 + 1 + 1))) [
    | yes right ↦
        rw (lt→ltb _ _ both, lt→ltb _ _ right)
          (record { child = inr (omega arith); inside = both; largest = λ c p q r. ground arith })
    | no left ↦
        rw (lt→ltb _ _ both, ge→ltb (f (h * 2 + 1)) (f (h * 2 + 1 + 1)) (omega arith))
          (record { child = inl refl; inside = lt; largest = λ c p q r. ground arith })
  ]
  | no one ↦
      rw (ge→ltb (h * 2 + 1 + 1) n (omega arith))
        (record { child = inl refl; inside = lt; largest = λ c p q r. ground arith })
]

swap-IsHeapBut :
    (lo n h m : ℕ) (f : ℕ → ℕ)
    → IsHeapBut lo n h f
    → IsLargerChild f h n m
    → f h < f m
    → IsHeapBut lo n m (algorithm_swap h m f)
swap-IsHeapBut lo n h m f v s above =
    let at = swap_other h m f in
    record {
      edges = λ c p q r t. ground (
        arith,
        swap_first h m f,
        swap_second h m f,
        at c,
        at (parent c),
        v.edges c,
        v.bridged m,
        s.largest c,
        s.child,
      );
      bridged = λ c p q r t u.
          ground
            (arith, swap_first h m f, swap_second h m f, at c, at (parent m), v.edges c, s.child);
    }

IsHeapBut-settled :
    (lo n h m : ℕ) (f : ℕ → ℕ)
    → IsHeapBut lo n h f
    → IsLargerChild f h n m
    → f m ≤ f h
    → IsHeapFrom lo n f
IsHeapBut-settled lo n h m f v s below c p q r = ground (arith, v.edges c, s.largest c)

swap_bounded :
    (h m n b : ℕ) (f : ℕ → ℕ)
    → h < n
    → m < n
    → ((k : ℕ) → k < n → f k ≤ b)
    → (k : ℕ) → k < n
    → algorithm_swap h m f k ≤ b
unfolding algorithm_swap
swap_bounded h m n b f p q bound k r = ground (arith, bound k, bound h, bound m)

IsSifted-self : (lo n : ℕ) (f : ℕ → ℕ) → IsHeapFrom lo n f → IsSifted lo n f f
IsSifted-self lo n f h = record {
  heap = h;
  permutation = IsPermutation-self n f;
  bounded = λ b bound. bound;
}

IsSifted-swap :
    (lo n h m : ℕ) (f g : ℕ → ℕ)
    → h < n
    → m < n
    → IsSifted lo n (algorithm_swap h m f) g
    → IsSifted lo n f g
IsSifted-swap lo n h m f g p q s = record {
  heap = s.heap;
  permutation = IsPermutation-trans (swap-IsPermutation h m f n p q) s.permutation;
  bounded = λ b bound. s.bounded b (swap_bounded h m n b f p q bound);
}

-- The result of a loop that ends.
abbrev pub Sifts : (lo n : ℕ) (f : ℕ → ℕ) → Option (ℕ → ℕ) → Type 0
Sifts lo n f o = (g : ℕ → ℕ) × (o ≡ some g) × IsSifted lo n f g

half : (h : ℕ) → h ≡ (h * 2 + 1 - 1) / 2
half h = omega arith

le→leb : (a b : ℕ) → a ≤ b → leb a b ≡ true
le→leb a b p = ground arith

gt→leb : (a b : ℕ) → b < a → leb a b ≡ false
gt→leb a b p = ground arith

heap_loop-Sifts :
    (fuel lo n h : ℕ) (f : ℕ → ℕ)
    → n - (h * 2 + 1) < fuel
    → IsHeapBut lo n h f
    → Sifts lo n f (heap_loop fuel f (h * 2 + 1) n)
unfolding heap_loop
heap_loop-Sifts zero lo n h f d v = absurd (omega arith)
heap_loop-Sifts (suc fuel) lo n h f d v = elim (dec_lt (h * 2 + 1) n) [
  | no leaf ↦ (
    f,
    rw (ge→ltb (h * 2 + 1) n (omega arith)) refl,
    IsSifted-self lo n f (λ c p q r. v.edges c p q r (omega arith)),
  )
  | yes lt ↦
      let s = larger_child-IsLargerChild f h n lt in
      let m = larger_child f (h * 2 + 1) n in
      rw (lt→ltb (h * 2 + 1) n lt) (
        subst
          (λ (head : ℕ). Sifts lo n f (
            if leb (f m) (f head)
            then some f
            else heap_loop fuel (algorithm_swap head m f) (m * 2 + 1) n))
          (half h)
          (elim (dec_lt (f h) (f m)) [
            | no settled ↦ (
              f,
              rw (le→leb (f m) (f h) (omega arith)) refl,
              IsSifted-self lo n f (IsHeapBut-settled lo n h m f v s (omega arith)),
            )
            | yes above ↦
                let (g, e, r) =
                  heap_loop-Sifts fuel lo n m (algorithm_swap h m f) (omega (arith, s.child))
                    (swap-IsHeapBut lo n h m f v s above) in
                (
                  g,
                  rw (gt→leb (f m) (f h) above) e,
                  IsSifted-swap lo n h m f g (omega arith) s.inside r,
                )
          ]))
]

pub algorithm_heap_max-Sifts :
    (lo n h : ℕ) (f : ℕ → ℕ) → IsHeapBut lo n h f → Sifts lo n f (algorithm_heap_max f h n)
unfolding algorithm_heap_max
algorithm_heap_max-Sifts lo n h f v = heap_loop-Sifts (n + 1) lo n h f (omega arith) v

root_greatest_below : (k n : ℕ) (f : ℕ → ℕ) (i : ℕ) → IsHeapFrom 0 n f → i < k → i < n → f i ≤ f 0
root_greatest_below zero n f i h p q = absurd (omega arith)
root_greatest_below (suc k) n f i h p q =
    ground (arith, h i, root_greatest_below k n f (parent i) h)

pub root_greatest : (n : ℕ) (f : ℕ → ℕ) (i : ℕ) → IsHeapFrom 0 n f → i < n → f i ≤ f 0
root_greatest n f i h p = root_greatest_below (suc i) n f i h (omega arith) p
