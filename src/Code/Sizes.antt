-- ===== src/Code/Sizes.antt =====
-- The UTF-8 decoder on any bytes: it ends, and it writes as many characters as it has made room for.
use zxlib.Prelude.{
  ℕ, zero, suc, ◌+◌, ◌<◌, ◌≡◌, ◌⊎◌, inl, inr, refl, ◌∙◌, arith, true, false, none, some, List, [],
  ◌∷◌, ◌==◌, get_or, drop, length, length-drop,
}
use zxlib.Code.Utf8.{
  Lead, stop, skip, error, lead, decode_utf8_size_loop, decode_utf8_size, decode_word,
  decode_utf8_loop, decode_utf8,
}
use zxlib.Code.RoundTrip.{decode_utf8_lem, decode_utf8_size_loop_skip, decode_utf8_loop_word}

-- The character that `decode_utf8_3` stores.
stored : List ℕ → ℕ
stored utf8 = elim (decode_word utf8) [ none ↦ 0 | some (n, w) ↦ w ]

-- Where `decode_utf8_size` goes on, `decode_utf8_3` takes the same bytes, at least one.
record IsSkip (n : ℕ) (utf8 : List ℕ) : Type 0 where
  word : decode_word utf8 ≡ some (n, stored utf8)
  some_byte : 0 < n
  more : (get_or utf8 0 0 == 0) ≡ false

skip-IsSkip : (n : ℕ) (utf8 : List ℕ) → lead utf8 ≡ skip n → IsSkip n utf8
unfolding lead decode_word stored
skip-IsSkip n utf8 e = record {
  word = ground (arith, e);
  some_byte = ground (arith, e);
  more = ground (arith, e);
}

stop_lem : (utf8 : List ℕ) → lead utf8 ≡ stop → (get_or utf8 0 0 == 0) ≡ true
unfolding lead
stop_lem utf8 e = ground (arith, e)

Lead-cases : (l : Lead) → (l ≡ stop) ⊎ (((n : ℕ) × (l ≡ skip n)) ⊎ (l ≡ error))
Lead-cases stop = inl refl
Lead-cases (skip n) = inr (inl (n, refl))
Lead-cases error = inr (inr refl)

-- What the two loops make of the same bytes.
Outcome : ℕ → List ℕ → Type 0
Outcome fuel utf8 =
    (decode_utf8_size_loop fuel utf8 ≡ some none)
    ⊎ ((code : List ℕ) × (decode_utf8_size_loop fuel utf8 ≡ some (some (length code)))
        × (decode_utf8_loop fuel utf8 ≡ some code))

module _ (fuel : ℕ) (utf8 : List ℕ) where
  stop-Outcome : lead utf8 ≡ stop → Outcome (suc fuel) utf8
  unfolding Outcome decode_utf8_size_loop decode_utf8_loop
  stop-Outcome e =
      inr ([], rw (e, decode_utf8_size_loop) refl, rw (stop_lem utf8 e, decode_utf8_loop) refl)

  error-Outcome : lead utf8 ≡ error → Outcome (suc fuel) utf8
  unfolding Outcome decode_utf8_size_loop
  error-Outcome e = inl (rw (e, decode_utf8_size_loop) refl)

  skip-Outcome : (n : ℕ) → lead utf8 ≡ skip n → Outcome fuel (drop n utf8) → Outcome (suc fuel) utf8
  unfolding Outcome decode_utf8_size_loop
  skip-Outcome n e (inl f) = inl (rw (e, f, decode_utf8_size_loop) refl)
  skip-Outcome n e (inr (code, f, g)) =
      let h = skip-IsSkip n utf8 e in
      inr (
        stored utf8 ∷ code,
        decode_utf8_size_loop_skip fuel n (length code) utf8 e f ∙ ground arith,
        decode_utf8_loop_word fuel n (stored utf8) utf8 code h.more h.word g,
      )

IsSkip-length : (n : ℕ) (utf8 : List ℕ) → IsSkip n utf8 → 0 < length utf8
IsSkip-length n [] h = absurd (cc h.more)
IsSkip-length n (u ∷ utf8) h = omega arith

loops-Outcome : (fuel : ℕ) (utf8 : List ℕ) → length utf8 < fuel → Outcome fuel utf8
loops-Outcome zero utf8 h = absurd (omega arith)
loops-Outcome (suc fuel) utf8 h = elim (Lead-cases (lead utf8)) [
  | inl e ↦ stop-Outcome fuel utf8 e
  | inr (inl (n, e)) ↦
      let s = skip-IsSkip n utf8 e in
      let shorter : length (drop n utf8) < fuel =
        omega (arith, length-drop n utf8, s.some_byte, IsSkip-length n utf8 s) in
      skip-Outcome fuel utf8 n e (loops-Outcome fuel (drop n utf8) shorter)
  | inr (inr e) ↦ error-Outcome fuel utf8 e
]

decode_utf8_error :
    (utf8 : List ℕ) → decode_utf8_size utf8 ≡ some none → decode_utf8 utf8 ≡ some none
unfolding decode_utf8
decode_utf8_error utf8 e = rw (e, decode_utf8) refl

-- On any bytes whatever the decoder ends. Either `decode_utf8_size` reports an error and
-- `decode_utf8_3` returns NULL, or it writes exactly as many characters as `decode_utf8_size` has
-- counted, the size of the array that it has allocated.
pub decode_utf8_total :
    (utf8 : List ℕ)
    → ((decode_utf8_size utf8 ≡ some none) × (decode_utf8 utf8 ≡ some none))
      ⊎ ((code : List ℕ) × (decode_utf8_size utf8 ≡ some (some (length code)))
          × (decode_utf8 utf8 ≡ some (some code)))
unfolding decode_utf8_size Outcome
decode_utf8_total utf8 = elim (loops-Outcome (length utf8 + 1) utf8 (omega arith)) [
  | inl e ↦ inl (e, decode_utf8_error utf8 e)
  | inr (code, e, f) ↦ inr (code, e, decode_utf8_lem utf8 code (length code) e f)
]
