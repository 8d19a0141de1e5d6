-- ===== src/Code/RoundTrip.antt =====
-- UTF-8 there and back: the loops of the decoder on the output of the encoder.
use zxlib.Prelude.{
  ℕ, zero, suc, ◌+◌, ◌^◌, ◌<◌, ◌≡◌, refl, ap, ◌∙◌, arith, false, some, List, [], ◌∷◌, ◌++◌, ◌==◌,
  ℕ_discrete, get_or, drop, length,
}
use zxlib.Code.Utf8.{
  encode_word, encode_word_size, encode_utf8_size, encode_utf8, skip, lead, decode_utf8_size_loop,
  decode_utf8_size, decode_word, decode_utf8_loop, decode_utf8,
}
use zxlib.Code.Bytes.{IsRound, encode_word-IsRound}

-- Characters of 16 bits, none of them the terminator.
pub data IsText : List ℕ → Type 0 where
  empty : IsText []
  word : {w : ℕ} {code : List ℕ} → 0 < w → w < 2 ^ 16 → IsText code → IsText (w ∷ code)

encode_word_size-pos : (w : ℕ) → 0 < encode_word_size w
unfolding encode_word_size
encode_word_size-pos w = ground arith

-- Characters of 16 bits.
pub data AreWords : List ℕ → Type 0 where
  nothing : AreWords []
  more : {w : ℕ} {code : List ℕ} → w < 2 ^ 16 → AreWords code → AreWords (w ∷ code)

encode_utf8_step :
    (w : ℕ) (code : List ℕ) → 0 < w → encode_utf8 (w ∷ code) ≡ encode_word w ++ encode_utf8 code
unfolding encode_utf8
encode_utf8_step w code p = ground arith

pub decode_utf8_size_loop_skip :
    (fuel n s : ℕ) (utf8 : List ℕ)
    → lead utf8 ≡ skip n
    → decode_utf8_size_loop fuel (drop n utf8) ≡ some (some s)
    → decode_utf8_size_loop (suc fuel) utf8 ≡ some (some (s + 1))
unfolding decode_utf8_size_loop
decode_utf8_size_loop_skip fuel n s utf8 e f = rw (e, f, decode_utf8_size_loop) refl

pub decode_utf8_loop_word :
    (fuel n w : ℕ) (utf8 code : List ℕ)
    → (get_or utf8 0 0 == 0) ≡ false
    → decode_word utf8 ≡ some (n, w)
    → decode_utf8_loop fuel (drop n utf8) ≡ some code
    → decode_utf8_loop (suc fuel) utf8 ≡ some (w ∷ code)
unfolding decode_utf8_loop
decode_utf8_loop_word fuel n w utf8 code d e f = rw (d, e, f, decode_utf8_loop) refl

-- One character at the front, for both loops at once.
record IsDecodedBy (fuel : ℕ) (utf8 code : List ℕ) : Type 0 where
  size : decode_utf8_size_loop fuel utf8 ≡ some (some (length code))
  words : decode_utf8_loop fuel utf8 ≡ some code

IsDecodedBy-empty : (fuel : ℕ) → IsDecodedBy (suc fuel) [] []
unfolding decode_utf8_size_loop decode_utf8_loop lead
IsDecodedBy-empty fuel = record { size = refl; words = refl }

IsDecodedBy-word :
    (fuel w : ℕ) (rest utf8 code : List ℕ)
    → IsRound w rest utf8
    → IsDecodedBy fuel rest code
    → IsDecodedBy (suc fuel) utf8 (w ∷ code)
IsDecodedBy-word fuel w rest utf8 code r h = record {
  size =
      decode_utf8_size_loop_skip fuel _ (length code) utf8 r.leads (rw r.after h.size)
      ∙ ground arith;
  words = decode_utf8_loop_word fuel _ w utf8 code r.more r.word (rw r.after h.words);
}

decode-encode :
    (fuel : ℕ) (code : List ℕ)
    → IsText code
    → length (encode_utf8 code) < fuel
    → IsDecodedBy fuel (encode_utf8 code) code
unfolding encode_utf8
decode-encode zero code t h = absurd (omega arith)
decode-encode (suc fuel) [] t h = IsDecodedBy-empty fuel
decode-encode (suc fuel) (w ∷ code) (word p q t) h =
    let r = encode_word-IsRound w (encode_utf8 code) p q in
    let step = encode_utf8_step w code p in
    let shorter : length (encode_utf8 code) < fuel =
      ground (arith, r.size, ap (λ (xs : List ℕ). length xs) step, encode_word_size-pos w) in
    rw step (
      IsDecodedBy-word fuel w (encode_utf8 code) (encode_word w ++ encode_utf8 code) code r
        (decode-encode fuel code t shorter))

pub decode_utf8_lem :
    (utf8 code : List ℕ) (size : ℕ)
    → decode_utf8_size utf8 ≡ some (some size)
    → decode_utf8_loop (length utf8 + 1) utf8 ≡ some code
    → decode_utf8 utf8 ≡ some (some code)
unfolding decode_utf8
decode_utf8_lem utf8 code size e f = rw (e, f, decode_utf8) refl

-- UTF-8 of a text of 16-bit characters decodes to the text, and `decode_utf8_size` counts its
-- characters: surrogates and all, as long as no character is the terminator.
pub decode_utf8-encode_utf8 :
    (code : List ℕ)
    → IsText code
    → (decode_utf8_size (encode_utf8 code) ≡ some (some (length code)))
      × (decode_utf8 (encode_utf8 code) ≡ some (some code))
unfolding decode_utf8_size
decode_utf8-encode_utf8 code t =
    let h = decode-encode (length (encode_utf8 code) + 1) code t (omega arith) in
    (h.size, decode_utf8_lem (encode_utf8 code) code (length code) h.size h.words)

-- `encode_utf8_3` writes exactly the bytes for which `encode_utf8_size` has made room, for every
-- text of 16-bit characters, cut at its first zero.
pub encode_utf8_size_lem :
    (code : List ℕ) → AreWords code → encode_utf8_size code ≡ length (encode_utf8 code)
unfolding encode_utf8_size encode_utf8
encode_utf8_size_lem [] h = refl
encode_utf8_size_lem (w ∷ code) (more q h) = elim (ℕ_discrete w 0) [
  | yes e ↦ rw e refl
  | no ne ↦ ground (
    arith,
    (encode_word-IsRound w (encode_utf8 code) (omega arith) q).size,
    encode_utf8_size_lem code h,
  )
]
