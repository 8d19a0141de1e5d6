-- ===== src/Algorithm/MergeBack.antt =====
-- One merging, and the copying back.
use zxlib.Prelude.{
  ℕ, zero, suc, ◌+◌, ◌-◌, ◌<◌, ◌≤◌, ◌≡◌, ◌⊎◌, refl, sym, ap, ap₂, ◌∙◌, arith, ◌&&◌, some, ltb, leb,
  if◌then◌else◌, inl, inr,
}
use zxlib.Prelude.Family.{update}
use zxlib.Prelude.Loop.{for_up}
use zxlib.Algorithm.MergeSort.{Merging, copy_left, copy_rest, copy_back, merge}
use zxlib.Algorithm.Arrays.{IsPermutation}
use zxlib.Algorithm.Merge.{
  IsMerging, merge_both-IsMerging, copy_left-IsMerging, copy_right-IsMerging,
}
use zxlib.Algorithm.Counting.{
  count_from, count_split, count_same, count-count_from, count_empty, split_at,
}

copy_back_at :
    (start d : ℕ) (temp array : ℕ → ℕ) (x : ℕ)
    → for_up d (λ d a. update a (start + d) (temp (start + d))) array x
      ≡ (if leb start x && ltb x (start + d) then temp x else array x)
unfolding for_up
copy_back_at start zero temp array x = ground arith
copy_back_at start (suc d) temp array x = ground (arith, copy_back_at start d temp array x)

-- From `start` on and before `stop` all is in order, the rest is as it was, and no member of `n` is
-- lost.
pub record IsRange (n start stop : ℕ) (f g : ℕ → ℕ) : Type 0 where
  pub ordered : (a b : ℕ) → start ≤ a → a ≤ b → b < stop → g a ≤ g b
  pub outside : (x : ℕ) → ((x < start) ⊎ (stop ≤ x)) → g x ≡ f x
  pub permutation : IsPermutation n f g

-- What is changed from `start` on and before `stop` only, and there has the same members.
range-IsPermutation :
    (start stop n : ℕ) (f g : ℕ → ℕ)
    → start ≤ stop
    → stop ≤ n
    → ((x : ℕ) → ((x < start) ⊎ (stop ≤ x)) → g x ≡ f x)
    → ((v : ℕ) → count_from start (stop - start) g v ≡ count_from start (stop - start) f v)
    → IsPermutation n f g
range-IsPermutation start stop n f g p q outside inside = record {
  same_count = λ v.
      count-count_from n g v
      ∙ parts g v
      ∙ ap₂ ◌+◌
          (ap₂ ◌+◌ (count_same 0 start g f v (λ k a b. outside k (inl (omega arith)))) (inside v))
          (count_same stop (n - stop) g f v (λ k a b. outside k (inr a)))
      ∙ sym (count-count_from n f v ∙ parts f v);
  same_rest = λ i le. outside i (inr (omega arith));
}
  where
    whole : n ≡ start + ((stop - start) + (n - stop))
    whole = omega (arith, p, q)

    middle : 0 + start + (stop - start) ≡ stop
    middle = omega (arith, p)

    from_zero : 0 + start ≡ start
    from_zero = omega arith

    parts :
        (h : ℕ → ℕ) (v : ℕ)
        → count_from 0 n h v
          ≡ count_from 0 start h v
            + count_from start (stop - start) h v
            + count_from stop (n - stop) h v
    parts h v =
        ap (λ (d : ℕ). count_from 0 d h v) whole
        ∙ count_split 0 start ((stop - start) + (n - stop)) h v
        ∙ ap (λ (t : ℕ). count_from 0 start h v + t)
            (count_split (0 + start) (stop - start) (n - stop) h v)
        ∙ ap₂
            (λ (a b : ℕ).
              count_from 0 start h v
              + (count_from a (stop - start) h v + count_from b (n - stop) h v))
            from_zero middle
        ∙ omega arith

copy_back_value :
    (start stop : ℕ) (temp array : ℕ → ℕ) (x : ℕ)
    → start ≤ stop
    → copy_back start stop temp array x ≡ (if leb start x && ltb x stop then temp x else array x)
unfolding copy_back
copy_back_value start stop temp array x p =
    copy_back_at start (stop - start) temp array x
    ∙ ap (λ (e : ℕ). if leb start x && ltb x e then temp x else array x) (there)
  where
    there : start + (stop - start) ≡ stop
    there = omega (arith, p)

-- Two parts in order become one.
module _ {start mid stop n : ℕ} {f : ℕ → ℕ} (p : start ≤ mid) (q : mid + 1 ≤ stop) (r : stop ≤ n)
    (left_sorted : (a b : ℕ) → start ≤ a → a ≤ b → b ≤ mid → f a ≤ f b)
    (right_sorted : (a b : ℕ) → mid + 1 ≤ a → a ≤ b → b < stop → f a ≤ f b) where
  begin-IsMerging :
      (temp : ℕ → ℕ)
      → IsMerging start mid stop f (record { i = start; j = mid + 1; k = start; temp = temp })
  unfolding count_from
  begin-IsMerging temp = record {
    low = (omega arith, omega (arith, p), omega arith, q);
    place = omega arith;
    sorted = λ a b x y z. absurd (omega (arith, x, y, z));
    below_left = λ a x y z. absurd (omega (arith, y, z));
    below_right = λ a x y z. absurd (omega (arith, y, z));
    same_count = λ v. omega (
      arith,
      count_empty start start temp v (omega arith),
      split_at start (mid + 1) stop f v (omega (arith, p)) q,
    );
  }

  copy_rest-IsMerging :
      (m : Merging)
      → IsMerging start mid stop f m
      → (mid < m.i) ⊎ (stop ≤ m.j)
      → IsMerging start mid stop f (copy_rest f mid stop m)
        × ((copy_rest f mid stop m).j ≡ stop)
        × ((copy_rest f mid stop m).i ≡ mid + 1)
  unfolding copy_rest
  copy_rest-IsMerging m s ends =
      let (t, e) =
        copy_left-IsMerging left_sorted right_sorted (mid + 1 - m.i) m (omega (arith, s.low))
          (λ more. omega (arith, ends, more)) s in
      copy_right-IsMerging left_sorted right_sorted _ (copy_left (mid + 1 - m.i) f m)
        (omega (arith, t.low)) e t

  module _ (m : Merging) (s : IsMerging start mid stop f m) (ej : m.j ≡ stop)
      (ei : m.i ≡ mid + 1) where
    merged_inside :
        (v : ℕ)
        → count_from start (stop - start) (copy_back start stop m.temp f) v
          ≡ count_from start (stop - start) f v
    merged_inside v =
        count_same start (stop - start) (copy_back start stop m.temp f) m.temp v
          (λ k a b. ground (arith, copy_back_value start stop m.temp f k, p, q))
        ∙ omega (
          arith,
          s.same_count v,
          written,
          count_empty m.i (mid + 1) f v (omega (arith, ei)),
          count_empty m.j stop f v (omega (arith, ej)),
        )
      where
        written : count_from start (m.k - start) m.temp v ≡ count_from start (stop - start) m.temp v
        written =
            ap (λ (e : ℕ). count_from start (e - start) m.temp v) (omega (arith, s.place, ei, ej))

    merged_outside : (x : ℕ) → ((x < start) ⊎ (stop ≤ x)) → copy_back start stop m.temp f x ≡ f x
    merged_outside x o = ground (arith, copy_back_value start stop m.temp f x, o, p, q)

    merged-IsRange : IsRange n start stop f (copy_back start stop m.temp f)
    merged-IsRange = record {
      ordered = λ a b x y z. ground (
        arith,
        copy_back_value start stop m.temp f a,
        copy_back_value start stop m.temp f b,
        s.sorted a b,
        s.place,
        ej,
        ei,
        p,
        q,
      );
      outside = merged_outside;
      permutation =
          range-IsPermutation start stop n f (copy_back start stop m.temp f) (omega (arith, p, q)) r
            merged_outside merged_inside;
    }

  pub merge-IsRange :
      (temp : ℕ → ℕ)
      → (g t : ℕ → ℕ) × (merge start mid stop (f, temp) ≡ some (g, t)) × IsRange n start stop f g
  unfolding merge
  merge-IsRange temp =
      let (m, e, s, ends) =
        merge_both-IsMerging left_sorted right_sorted (stop - start + 1)
          (record { i = start; j = mid + 1; k = start; temp = temp }) (omega (arith, p, q))
          (begin-IsMerging temp) in
      let (t, ej, ei) = copy_rest-IsMerging m s ends in
      let done = (copy_rest f mid stop m).temp in
      (
        copy_back start stop done f,
        done,
        rw (e, merge) refl,
        merged-IsRange (copy_rest f mid stop m) t ej ei,
      )
