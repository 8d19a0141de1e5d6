-- ===== src/Algorithm/Binary.antt =====
-- The binary insertion puts each member where the plain insertion does.
use zxlib.Prelude.{
  ℕ, zero, suc, ◌+◌, ◌-◌, ◌/◌, ◌<◌, ◌≤◌, ◌≡◌, refl, subst, sym, ap, ◌∙◌, arith, Option, some, ltb,
  dec_lt, Bool-cases, ltb→lt, ltb→ge, lt→ltb, ge→ltb, inl, inr,
}
use zxlib.Prelude.Family.{update}
use zxlib.Prelude.Loop.{for_up, for_up_inv}
use zxlib.Algorithm.Arrays.{IsSorted, IsPermutation-self}
use zxlib.Algorithm.Sorts.{put_down, find_place, move_up, put_at, algorithm_bisearch_insert_sort}
use zxlib.Algorithm.Insert.{IsSortedUp, Sorts, IsSortedUp-start, put_down-IsSortedUp}

-- Where `tmp` belongs among the first `i`.
record IsPlace (f : ℕ → ℕ) (tmp i stop : ℕ) : Type 0 where
  low : (k : ℕ) → k < stop → f k ≤ tmp
  high : (k : ℕ) → stop ≤ k → k < i → tmp < f k
  within : stop ≤ i

find_place_lem :
    (fuel : ℕ) (f : ℕ → ℕ) (tmp i start stop : ℕ)
    → IsSorted i f
    → stop ≤ i
    → start ≤ stop
    → stop - start < fuel
    → ((k : ℕ) → k < start → f k ≤ tmp)
    → ((k : ℕ) → stop ≤ k → k < i → tmp < f k)
    → (place : ℕ) × (find_place fuel f tmp start stop ≡ some place) × IsPlace f tmp i place
unfolding find_place
find_place_lem zero f tmp i start stop s p q d lo hi = absurd (omega arith)
find_place_lem (suc fuel) f tmp i start stop s p q d lo hi = elim (dec_lt start stop) [
  | no done ↦ (
    stop,
    rw (ge→ltb start stop (omega arith)) refl,
    record { low = λ k lt. lo k (omega arith); high = hi; within = p },
  )
  | yes more ↦ elim (Bool-cases (ltb tmp (f ((start + stop - 1) / 2)))) [
    | inl less ↦
        let mid = (start + stop - 1) / 2 in
        rw (lt→ltb start stop more, less)
          (find_place_lem fuel f tmp i start mid s (omega arith) (omega arith) (omega arith) lo
            (λ k a b. ground (arith, ltb→lt tmp (f mid), s.ordered mid k)))
    | inr ge ↦
        let mid = (start + stop - 1) / 2 in
        rw (lt→ltb start stop more, ge)
          (find_place_lem fuel f tmp i (mid + 1) stop s p (omega arith) (omega arith)
            (λ k a. ground (arith, ltb→ge tmp (f mid), s.ordered k mid)) hi)
  ]
]

put_down_on :
    (tmp j : ℕ) (f : ℕ → ℕ)
    → tmp < f j
    → put_down tmp (suc j) f ≡ put_down tmp j (update f (suc j) (f j))
unfolding put_down
put_down_on tmp j f lt = rw (lt→ltb tmp (f j) lt) refl

put_down_here :
    (tmp j : ℕ) (f : ℕ → ℕ) → ((k : ℕ) → k < j → f k ≤ tmp) → put_down tmp j f ≡ update f j tmp
unfolding put_down
put_down_here tmp zero f lo = refl
put_down_here tmp (suc j) f lo = rw (ge→ltb tmp (f j) (lo j (omega arith))) refl

-- Moving up what is larger and then writing is what the plain insertion does.
put_down-move_up :
    (d stop tmp : ℕ) (f : ℕ → ℕ)
    → ((k : ℕ) → k < stop → f k ≤ tmp)
    → ((k : ℕ) → stop ≤ k → k < stop + d → tmp < f k)
    → put_down tmp (stop + d) f ≡ update (move_up d stop f) stop tmp
unfolding move_up
put_down-move_up zero stop tmp f lo hi =
    ap (λ (j : ℕ). put_down tmp j f) (plus_zero stop) ∙ put_down_here tmp stop f lo
  where
    plus_zero : (n : ℕ) → n + 0 ≡ n
    plus_zero n = omega arith
put_down-move_up (suc d) stop tmp f lo hi =
    ap (λ (j : ℕ). put_down tmp j f) (plus_suc stop d)
    ∙ put_down_on tmp (stop + d) f (hi (stop + d) (omega arith) (omega arith))
    ∙ put_down-move_up d stop tmp (update f (suc (stop + d)) (f (stop + d)))
        (λ k p. ground (arith, lo k)) (λ k p q. ground (arith, hi k))
    ∙ ap (λ (j : ℕ). update (move_up d stop (update f j (f (stop + d)))) stop tmp)
        (sym (plus_suc stop d))
  where
    plus_suc : (n m : ℕ) → n + suc m ≡ suc (n + m)
    plus_suc n m = omega arith

-- One round of the binary insertion.
put_at-put_down : (i : ℕ) (f : ℕ → ℕ) → IsSorted i f → put_at i (some f) ≡ some (put_down (f i) i f)
unfolding put_at
put_at-put_down i f s =
    let (stop, e, place) =
      find_place_lem (i + 1) f (f i) i 0 i s (omega arith) (omega arith) (omega arith)
        (λ k p. absurd (omega arith)) (λ k p q. absurd (omega arith)) in
    let whole = back stop place.within in
    rw (e, put_at)
      (ap (λ (g : ℕ → ℕ). some g)
        (sym (
            put_down-move_up (i - stop) stop (f i) f place.low
              (λ k p q. place.high k p (omega arith)))
          ∙ ap (λ (j : ℕ). put_down (f i) j f) whole))
  where
    back : (stop : ℕ) → stop ≤ i → stop + (i - stop) ≡ i
    back stop le = omega arith

-- An array after so many rounds.
record IsDone (n i : ℕ) (f : ℕ → ℕ) (o : Option (ℕ → ℕ)) : Type 0 where
  array : ℕ → ℕ
  there : o ≡ some array
  up : IsSortedUp n i f array

put_at-IsDone :
    (n j : ℕ) (f : ℕ → ℕ) (o : Option (ℕ → ℕ))
    → j < n
    → IsDone n j f o
    → IsDone n (suc j) f (put_at j o)
put_at-IsDone n j f o lt d = record {
  array = put_down (d.array j) j d.array;
  there = ap (put_at j) d.there ∙ put_at-put_down j d.array d.up.sorted;
  up = put_down-IsSortedUp n j f d.array lt d.up;
}

-- An array with its first member is in order so far.
first-IsDone : (n : ℕ) (f : ℕ → ℕ) → IsDone n 1 f (some f)
first-IsDone n f = record {
  array = f;
  there = refl;
  up = record {
    sorted = record { ordered = λ i j p q. one i j p q };
    permutation = IsPermutation-self n f;
  };
}
  where
    one : (i j : ℕ) → i ≤ j → j < 1 → f i ≤ f j
    one i j p q = let e : i ≡ j = omega arith in rw e (omega arith)

pub algorithm_bisearch_insert_sort-IsSortedUp :
    (n : ℕ) (f : ℕ → ℕ) → Sorts n f (algorithm_bisearch_insert_sort f n)
unfolding algorithm_bisearch_insert_sort for_up
algorithm_bisearch_insert_sort-IsSortedUp zero f = (f, refl, IsSortedUp-start 0 f)
algorithm_bisearch_insert_sort-IsSortedUp (suc n) f =
    let d = all_rounds n in (d.array, d.there, d.up)
  where
    next : (i : ℕ) → suc i ≡ i + 1
    next i = omega arith

    pred : (n : ℕ) → n ≡ suc n - 1
    pred n = omega arith

    all_rounds :
        (n : ℕ) → IsDone (suc n) (suc n) f (for_up (suc n - 1) (λ i. put_at (i + 1)) (some f))
    all_rounds n =
        subst (λ (m : ℕ). IsDone (suc n) (suc n) f (for_up m (λ i. put_at (i + 1)) (some f)))
          (pred n)
          (for_up_inv (λ i o. IsDone (suc n) (suc i) f o) n (λ i. put_at (i + 1)) (some f)
            (λ i o lt d.
              subst (λ (j : ℕ). IsDone (suc n) (suc (suc i)) f (put_at j o)) (next i)
                (put_at-IsDone (suc n) (suc i) f o (omega arith) d))
            (first-IsDone (suc n) f))
