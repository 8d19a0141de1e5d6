-- ===== src/Algorithm/Merge.antt =====
-- The merging of two parts in order.
use zxlib.Prelude.{
  ℕ, zero, suc, ◌+◌, ◌-◌, ◌<◌, ◌≤◌, ◌≡◌, ◌⊎◌, ap, ap₂, ◌∙◌, arith, some, dec_lt, inl, inr,
}
use zxlib.Prelude.Family.{update}
use zxlib.Algorithm.MergeSort.{Merging, take_left, take_right, merge_both, copy_left, copy_right}
use zxlib.Algorithm.Counting.{hit, count_from, count_front, count_last, count_same}

-- The merging of the parts of `f` from `start` to `mid` and from there to `stop`.
pub record IsMerging (start mid stop : ℕ) (f : ℕ → ℕ) (m : Merging) : Type 0 where
  pub low : (start ≤ m.i) × (m.i ≤ mid + 1) × (mid + 1 ≤ m.j) × (m.j ≤ stop)
  pub place : m.k + (mid + 1) ≡ m.i + m.j
  pub sorted : (a b : ℕ) → start ≤ a → a ≤ b → b < m.k → m.temp a ≤ m.temp b
  pub below_left : (a x : ℕ) → start ≤ a → a < m.k → m.i ≤ x → x ≤ mid → m.temp a ≤ f x
  pub below_right : (a x : ℕ) → start ≤ a → a < m.k → m.j ≤ x → x < stop → m.temp a ≤ f x
  pub same_count :
      (v : ℕ)
      → count_from start (m.k - start) m.temp v
          + count_from m.i (mid + 1 - m.i) f v
          + count_from m.j (stop - m.j) f v
        ≡ count_from start (stop - start) f v

-- Both parts are in order.
module _ {start mid stop : ℕ} {f : ℕ → ℕ}
    (left_sorted : (a b : ℕ) → start ≤ a → a ≤ b → b ≤ mid → f a ≤ f b)
    (right_sorted : (a b : ℕ) → mid + 1 ≤ a → a ≤ b → b < stop → f a ≤ f b) {m : Merging}
    (s : IsMerging start mid stop f m) where
  started : start ≤ m.k
  started = omega (arith, s.low, s.place)

  temp_count :
      (w v : ℕ)
      → count_from start (m.k + 1 - start) (update m.temp m.k w) v
        ≡ count_from start (m.k - start) m.temp v + hit v w
  temp_count w v =
      ap (λ (d : ℕ). count_from start d (update m.temp m.k w) v) one_more
      ∙ count_last start (m.k - start) (update m.temp m.k w) v
      ∙ ap₂ ◌+◌
          (count_same start (m.k - start) (update m.temp m.k w) m.temp v
            (λ k p q. ground (arith, started)))
          (ap (hit v) (ground (arith, started)))
    where
      one_more : m.k + 1 - start ≡ m.k - start + 1
      one_more = omega (arith, started)

  take_left-IsMerging :
      m.i ≤ mid
      → ((x : ℕ) → m.j ≤ x → x < stop → f m.i ≤ f x)
      → IsMerging start mid stop f (take_left f m)
  take_left-IsMerging p least = record {
    low = (omega (arith, s.low), omega (arith, s.low), omega (arith, s.low), omega (arith, s.low));
    place = omega (arith, s.place);
    sorted = λ a b q r t. ground (arith, s.sorted a b, s.below_left a m.i);
    below_left = λ a x q r t u. ground (arith, s.below_left a x, left_sorted m.i x, s.low);
    below_right = λ a x q r t u. ground (arith, s.below_right a x, least x);
    same_count = λ v.
        omega (
          arith,
          temp_count (f m.i) v,
          count_front m.i (mid + 1) f v (omega arith),
          s.same_count v,
        );
  }

  take_right-IsMerging :
      m.j < stop
      → ((x : ℕ) → m.i ≤ x → x ≤ mid → f m.j ≤ f x)
      → IsMerging start mid stop f (take_right f m)
  take_right-IsMerging p least = record {
    low = (omega (arith, s.low), omega (arith, s.low), omega (arith, s.low), omega (arith, s.low));
    place = omega (arith, s.place);
    sorted = λ a b q r t. ground (arith, s.sorted a b, s.below_right a m.j);
    below_left = λ a x q r t u. ground (arith, s.below_left a x, least x);
    below_right = λ a x q r t u. ground (arith, s.below_right a x, right_sorted m.j x, s.low);
    same_count =
        λ v. omega (arith, temp_count (f m.j) v, count_front m.j stop f v p, s.same_count v);
  }

-- The loops.
module _ {start mid stop : ℕ} {f : ℕ → ℕ}
    (left_sorted : (a b : ℕ) → start ≤ a → a ≤ b → b ≤ mid → f a ≤ f b)
    (right_sorted : (a b : ℕ) → mid + 1 ≤ a → a ≤ b → b < stop → f a ≤ f b) where
  pub merge_both-IsMerging :
      (fuel : ℕ) (m : Merging)
      → mid + 1 + stop < m.i + m.j + fuel
      → IsMerging start mid stop f m
      → (n : Merging) × (merge_both fuel f mid stop m ≡ some n)
        × IsMerging start mid stop f n
        × ((mid < n.i) ⊎ (stop ≤ n.j))
  unfolding merge_both
  merge_both-IsMerging zero m p s = absurd (omega (arith, p, s.low))
  merge_both-IsMerging (suc fuel) m p s = elim (dec_lt mid m.i) [
    | yes done ↦ (m, ground (arith, done), s, inl done)
    | no more ↦ elim (dec_lt m.j stop) [
      | no done ↦ (m, ground (arith, done), s, inr (omega arith))
      | yes more' ↦ elim (dec_lt (f m.i) (f m.j)) [
        | yes less ↦
            let (n, e, t, u) = merge_both-IsMerging fuel (take_left f m) (omega (arith, p)) (
              take_left-IsMerging left_sorted right_sorted s (omega arith)
                (λ x q r. omega (arith, less, right_sorted m.j x (s.low.2) q r))) in
            (n, ground (arith, e, less, more, more'), t, u)
        | no ge ↦
            let (n, e, t, u) = merge_both-IsMerging fuel (take_right f m) (omega (arith, p)) (
              take_right-IsMerging left_sorted right_sorted s more'
                (λ x q r. omega (arith, ge, left_sorted m.i x (s.low.0) q r))) in
            (n, ground (arith, e, ge, more, more'), t, u)
      ]
    ]
  ]

  pub copy_left-IsMerging :
      (d : ℕ) (m : Merging)
      → m.i + d ≡ mid + 1
      → (0 < d → stop ≤ m.j)
      → IsMerging start mid stop f m
      → IsMerging start mid stop f (copy_left d f m) × ((copy_left d f m).i ≡ mid + 1)
  unfolding copy_left
  copy_left-IsMerging zero m p q s = (s, omega (arith, p))
  copy_left-IsMerging (suc d) m p q s =
      copy_left-IsMerging d (take_left f m) (omega (arith, p)) (λ r. q (omega arith))
        (take_left-IsMerging left_sorted right_sorted s (omega (arith, p))
          (λ x r t. absurd (omega (arith, q (omega arith), r, t))))

  pub copy_right-IsMerging :
      (d : ℕ) (m : Merging)
      → m.j + d ≡ stop
      → m.i ≡ mid + 1
      → IsMerging start mid stop f m
      → IsMerging start mid stop f (copy_right d f m)
        × ((copy_right d f m).j ≡ stop)
        × ((copy_right d f m).i ≡ mid + 1)
  unfolding copy_right
  copy_right-IsMerging zero m p q s = (s, omega (arith, p), q)
  copy_right-IsMerging (suc d) m p q s =
      copy_right-IsMerging d (take_right f m) (omega (arith, p)) q (
        take_right-IsMerging left_sorted right_sorted s (omega (arith, p))
          (λ x r t. absurd (omega (arith, q, r, t))))
