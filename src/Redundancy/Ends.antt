-- ===== src/Redundancy/Ends.antt =====
-- `redundancy_imple` ends, whatever is missing, and what it has put in the list was sent.
use zxlib.Prelude.{
  ℕ, zero, suc, ◌+◌, ◌-◌, ◌*◌, ◌<◌, ◌≤◌, ◌≡◌, inl, inr, refl, ap, sym, ◌∙◌, arith, Bool, true,
  false, leb, ◌==◌, if◌then◌else◌, Bool-cases, Option-cases, dec_lt, none, some, [], append-nil,
  all_empty,
}
use zxlib.Prelude.Family.{update}
use zxlib.Prelude.Loop.{sum_range, sum_range_lt, sum_range-le, sum_range_change}
use zxlib.Package.{Package}
use zxlib.Redundancy.{Redundancy}
use zxlib.Redundancy.Table.{redundancy_table}
use zxlib.Redundancy.Parity.{IsSixteen}
use zxlib.Redundancy.Syndrome.{IsSyndrome}
use zxlib.Redundancy.Round.{imple_one-IsFound}
use zxlib.Redundancy.Imple.{
  IsStep, redundancy_restore-IsStep, Restores, step-Restores, step-IsSyndrome,
}
use zxlib.Redundancy.Decode.{
  redundancy_restore, missing, count_missing, imple_one, imple_loop, redundancy_imple,
}

module _ (fuel : ℕ) (r : Redundancy) (num : ℕ → ℕ) (i : ℕ) where
  imple_loop_end : 5 ≤ i → imple_loop (suc fuel) r num i ≡ some r
  unfolding imple_loop
  imple_loop_end le = rw (past i le, imple_loop) refl
    where
      past : (i : ℕ) → 5 ≤ i → leb 5 i ≡ true
      past i le = ground arith

  before : i < 5 → leb 5 i ≡ false
  before lt = ground arith

  imple_loop_next :
      i < 5
      → imple_one r num i ≡ none
      → imple_loop (suc fuel) r num i ≡ imple_loop fuel r num (i + 1)
  unfolding imple_loop
  imple_loop_next lt e = rw (before lt, e, imple_loop) refl

  imple_loop_full :
      (p : Package) (k : ℕ)
      → i < 5
      → imple_one r num i ≡ some (p, k)
      → ((redundancy_restore r p k).dn == 11) ≡ true
      → imple_loop (suc fuel) r num i ≡ some (redundancy_restore r p k)
  unfolding imple_loop
  imple_loop_full p k lt e d = rw (before lt, e, d, imple_loop) refl

  imple_loop_again :
      (p : Package) (k : ℕ)
      → i < 5
      → imple_one r num i ≡ some (p, k)
      → ((redundancy_restore r p k).dn == 11) ≡ false
      → imple_loop (suc fuel) r num i
        ≡ imple_loop fuel
            (redundancy_restore r p k)
            (λ j. num j - (if redundancy_table k j then 1 else 0))
            0
  unfolding imple_loop
  imple_loop_again p k lt e d = rw (before lt, e, d, imple_loop) refl

unmarked : (mark : ℕ → Bool) → ℕ
unmarked mark = sum_range 16 (λ j. if mark j then 0 else 1)

unmarked_lt :
    (mark : ℕ → Bool) (k : ℕ)
    → k < 16
    → mark k ≡ false
    → unmarked (update mark k true) < unmarked mark
unfolding unmarked
unmarked_lt mark k lt e =
    sum_range_lt 16 k (λ j. if update mark k true j then 0 else 1) (λ j. if mark j then 0 else 1) lt
      (λ j _. ground arith) (ground (arith, e))

unmarked_le : (mark : ℕ → Bool) → unmarked mark ≤ 16
unfolding unmarked
unmarked_le mark = sum_range-le 16 1 (λ j. if mark j then 0 else 1) (λ j _. ground arith)

count_missing_step :
    (r s : Redundancy) (p : Package) (k j : ℕ)
    → k < 16
    → r.mark k ≡ false
    → IsStep r p k s
    → count_missing r j ≡ count_missing s j + (if redundancy_table k j then 1 else 0)
unfolding count_missing
count_missing_step r s p k j lt e st = rw (st.mark) (
    sum_range_change 16 k (if redundancy_table k j then 1 else 0) (missing r.mark j)
      (missing (update r.mark k true) j) lt (λ l _ ne. ground arith) (ground (arith, e)))

Restores-here : (v : ℕ → Package) (r : Redundancy) → IsSyndrome v r.mark r.cp → Restores v r r
Restores-here v r h = record {
  syndrome = h;
  more = [];
  list = sym (append-nil r.list);
  sent = all_empty;
  mark = λ j e. e;
}

-- The loop with more fuel than its rounds: six for each missing packet, and those to the end of the
-- columns.
imple_loop-Restores :
    (fuel : ℕ) (v : ℕ → Package) (r : Redundancy) (num : ℕ → ℕ) (i : ℕ)
    → 6 * unmarked r.mark + (5 - i) < fuel
    → IsSixteen v
    → IsSyndrome v r.mark r.cp
    → ((j : ℕ) → num j ≡ count_missing r j)
    → (t : Redundancy) × (imple_loop fuel r num i ≡ some t) × Restores v r t
imple_loop-Restores zero v r num i lt code h n = absurd (omega arith)
imple_loop-Restores (suc fuel) v r num i lt code h n = elim (dec_lt i 5) [
  | no ge ↦ (r, imple_loop_end fuel r num i (omega arith), Restores-here v r h)
  | yes small ↦ elim (Option-cases (imple_one r num i)) [
    | inl e ↦
        let (t, runs, done) = imple_loop-Restores fuel v r num (i + 1) (omega arith) code h n in
        (t, imple_loop_next fuel r num i small e ∙ runs, done)
    | inr ((p, k), e) ↦
        let f = imple_one-IsFound v r num i code h small p k (n i) e in
        let s = redundancy_restore r p k in
        let st = redundancy_restore-IsStep r p k in
        let syn = step-IsSyndrome v r s p k h f st in
        elim (Bool-cases (s.dn == 11)) [
          | inl d ↦ (
            s,
            imple_loop_full fuel r num i p k small e d,
            step-Restores v r s s p k f st (Restores-here v s syn),
          )
          | inr d ↦
              let (t, runs, done) =
                imple_loop-Restores fuel v s (λ j. num j - (if redundancy_table k j then 1 else 0))
                  0 (fewer s k f.place f.lost st.mark) code syn
                  (λ j.
                    counted k j (count_missing s j) (n j)
                      (count_missing_step r s p k j f.place f.lost st)) in
              (
                t,
                imple_loop_again fuel r num i p k small e d ∙ runs,
                step-Restores v r s t p k f st done,
              )
        ]
  ]
]
  where
    fewer :
        (s : Redundancy) (k : ℕ)
        → k < 16
        → r.mark k ≡ false
        → s.mark ≡ update r.mark k true
        → 6 * unmarked s.mark + 5 < fuel
    fewer s k p e m = omega (arith, unmarked_lt r.mark k p e, ap unmarked m)

    counted :
        (k j c : ℕ)
        → num j ≡ count_missing r j
        → count_missing r j ≡ c + (if redundancy_table k j then 1 else 0)
        → num j - (if redundancy_table k j then 1 else 0) ≡ c
    counted k j c a b = omega (arith, a, b)

-- When the code packets of the receiver sum up the packets that have come of a codeword,
-- `redundancy_imple` ends, whatever is missing. Each packet that it adds to the list is one of the
-- sixteen that were sent, in all coded words, with its place in its code. The code packets then
-- sum up what has come or been restored, and nothing that had come is missing after it.
pub redundancy_imple-Restores :
    (v : ℕ → Package) (r : Redundancy)
    → IsSixteen v
    → IsSyndrome v r.mark r.cp
    → (t : Redundancy) × (redundancy_imple r ≡ some t) × Restores v r t
unfolding redundancy_imple
redundancy_imple-Restores v r code h =
    imple_loop-Restores 128 v r (count_missing r) 0 (omega (arith, unmarked_le r.mark)) code h
      (λ j. refl)
