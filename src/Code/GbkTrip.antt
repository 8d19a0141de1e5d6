-- ===== src/Code/GbkTrip.antt =====
-- GBK there and back, and what the decoder does with a character that is cut off.
use zxlib.Prelude.{
  ℕ, zero, suc, ◌+◌, ◌-◌, ◌*◌, ◌/◌, ◌%◌, ◌^◌, ◌<◌, ◌≤◌, ◌≡◌, refl, ◌∙◌, arith, none, some, List, [],
  ◌∷◌, ◌++◌, length, drop,
}
use zxlib.Code.Gbk.{
  encode_gbk_size, gbk_bytes, encode_gbk_loop, encode_gbk, char, gbk_lead, decode_gbk_size_loop,
  decode_gbk_size, gbk_char, decode_gbk_loop, decode_gbk,
}

-- The characters from code_unicode_first to code_unicode_last have codes of two bytes in the range of
-- `code_unicode`, which takes each back to its character.
pub record AreInverse (code_gbk code_unicode : ℕ → ℕ) : Type 0 where
  pub low : (i : ℕ) → i < 20902 → 0x8140 ≤ code_gbk i
  pub high : (i : ℕ) → i < 20902 → code_gbk i ≤ 0xfe9f
  pub back : (i : ℕ) → i < 20902 → code_unicode (code_gbk i - 0x8140) ≡ 0x4e00 + i

-- ASCII and the Chinese characters of the table, none of them the terminator.
pub data IsGbkText : List ℕ → Type 0 where
  finish : IsGbkText []
  ascii : {w : ℕ} {code : List ℕ} → 0 < w → w < 0x80 → IsGbkText code → IsGbkText (w ∷ code)
  chinese :
      {w : ℕ} {code : List ℕ} → 0x4e00 ≤ w → w ≤ 0x9fa5 → IsGbkText code → IsGbkText (w ∷ code)

module _ (code_gbk code_unicode : ℕ → ℕ) (h : AreInverse code_gbk code_unicode) where
  -- One character at the front, for the three loops at once.
  record IsCoded (fuel : ℕ) (gbk code : List ℕ) : Type 0 where
    size : decode_gbk_size_loop fuel gbk ≡ some (some (length code))
    words : decode_gbk_loop code_unicode fuel gbk ≡ some code

  IsCoded-char :
      (fuel n word w : ℕ) (gbk rest code : List ℕ)
      → gbk_lead gbk ≡ char n word
      → drop n gbk ≡ rest
      → gbk_char code_unicode n word ≡ w
      → IsCoded fuel rest code
      → IsCoded (suc fuel) gbk (w ∷ code)
  unfolding decode_gbk_size_loop decode_gbk_loop
  IsCoded-char fuel n word w gbk rest code e d c r = record {
    size = rw (e, d, r.size, decode_gbk_size_loop) (ground arith);
    words = rw (e, d, r.words, c, decode_gbk_loop) refl;
  }

  IsCoded-zero : (fuel : ℕ) → IsCoded (suc fuel) (0 ∷ []) []
  unfolding decode_gbk_size_loop decode_gbk_loop gbk_lead
  IsCoded-zero fuel = record { size = refl; words = refl }

  lead_ascii : (w : ℕ) (rest : List ℕ) → 0 < w → w < 0x80 → gbk_lead (w ∷ rest) ≡ char 1 w
  unfolding gbk_lead
  lead_ascii w [] p q = ground arith
  lead_ascii w (c ∷ rest) p q = ground arith

  lead_chinese :
      (g : ℕ) (rest : List ℕ)
      → 0x8140 ≤ g
      → g ≤ 0xfe9f
      → gbk_lead ((g / 2 ^ 8 % 2 ^ 8) ∷ (g % 2 ^ 8) ∷ rest) ≡ char 2 g
  unfolding gbk_lead
  lead_chinese g rest p q = ground arith

  -- The bytes of one character, and what the decoder makes of them before any others.
  record IsGbkCoded (w : ℕ) : Type 0 where
    n : ℕ
    gbk_word : ℕ
    leads : (rest : List ℕ) → gbk_lead (gbk_bytes code_gbk w ++ rest) ≡ char n gbk_word
    after : (rest : List ℕ) → drop n (gbk_bytes code_gbk w ++ rest) ≡ rest
    stored : gbk_char code_unicode n gbk_word ≡ w

  IsGbkCoded-ascii : (w : ℕ) → 0 < w → w < 0x80 → IsGbkCoded w
  unfolding gbk_bytes gbk_char
  IsGbkCoded-ascii w p q =
      let bytes : gbk_bytes code_gbk w ≡ w ∷ [] = ground arith in
      record {
        n = 1;
        gbk_word = w;
        leads = λ rest. rw bytes (lead_ascii w rest p q);
        after = λ rest. rw bytes refl;
        stored = refl;
      }

  IsGbkCoded-chinese : (w : ℕ) → 0x4e00 ≤ w → w ≤ 0x9fa5 → IsGbkCoded w
  unfolding gbk_bytes gbk_char
  IsGbkCoded-chinese w p q =
      let g = code_gbk (w - 0x4e00) in
      let in_table : w - 0x4e00 < 20902 = omega arith in
      let bytes : gbk_bytes code_gbk w ≡ (g / 2 ^ 8 % 2 ^ 8) ∷ (g % 2 ^ 8) ∷ [] = ground arith in
      record {
        n = 2;
        gbk_word = g;
        leads = λ rest. rw bytes (lead_chinese g rest (h.low _ in_table) (h.high _ in_table));
        after = λ rest. rw bytes refl;
        stored = h.back _ in_table ∙ omega arith;
      }

  encode_gbk_step :
      (w : ℕ) (code : List ℕ)
      → 0 < w
      → encode_gbk_loop code_gbk (w ∷ code) ≡ gbk_bytes code_gbk w ++ encode_gbk_loop code_gbk code
  unfolding encode_gbk_loop
  encode_gbk_step w code p = ground arith

  IsCoded-step :
      (fuel w : ℕ) (code : List ℕ)
      → 0 < w
      → IsGbkCoded w
      → IsCoded fuel (encode_gbk_loop code_gbk code) code
      → IsCoded (suc fuel) (encode_gbk_loop code_gbk (w ∷ code)) (w ∷ code)
  IsCoded-step fuel w code p c r = rw (encode_gbk_step w code p) (
      IsCoded-char fuel c.n c.gbk_word w _ (encode_gbk_loop code_gbk code) code (c.leads _)
        (c.after _) c.stored r)

  decode_gbk-encode_loop :
      (fuel : ℕ) (code : List ℕ)
      → IsGbkText code
      → length code < fuel
      → IsCoded fuel (encode_gbk_loop code_gbk code) code
  unfolding encode_gbk_loop
  decode_gbk-encode_loop zero code t l = absurd (omega arith)
  decode_gbk-encode_loop (suc fuel) [] t l = IsCoded-zero fuel
  decode_gbk-encode_loop (suc fuel) (w ∷ code) (ascii p q t) l =
      IsCoded-step fuel w code p (IsGbkCoded-ascii w p q)
        (decode_gbk-encode_loop fuel code t (omega arith))
  decode_gbk-encode_loop (suc fuel) (w ∷ code) (chinese p q t) l =
      IsCoded-step fuel w code (omega arith) (IsGbkCoded-chinese w p q)
        (decode_gbk-encode_loop fuel code t (omega arith))

  -- Every text of such characters has a size.
  IsGbkText-sized :
      (code : List ℕ) → IsGbkText code → (size : ℕ) × (encode_gbk_size code ≡ some size)
  unfolding encode_gbk_size
  IsGbkText-sized [] t = (0, refl)
  IsGbkText-sized (w ∷ code) (ascii p q t) =
      let (size, e) = IsGbkText-sized code t in (size + 1, rw e (ground arith))
  IsGbkText-sized (w ∷ code) (chinese p q t) =
      let (size, e) = IsGbkText-sized code t in (size + 2, rw e (ground arith))

  decode_gbk_lem :
      (gbk code : List ℕ)
      → IsCoded (length gbk + 1) gbk code
      → decode_gbk code_unicode gbk ≡ some (some code)
  unfolding decode_gbk decode_gbk_size
  decode_gbk_lem gbk code c =
      let size : decode_gbk_size gbk ≡ some (some (length code)) = c.size in
      rw (size, c.words, decode_gbk) refl

  length-encode_gbk_loop :
      (code : List ℕ) → IsGbkText code → length code < length (encode_gbk_loop code_gbk code)
  unfolding encode_gbk_loop gbk_bytes
  length-encode_gbk_loop [] t = omega arith
  length-encode_gbk_loop (w ∷ code) (ascii p q t) =
      let shorter = length-encode_gbk_loop code t in ground arith
  length-encode_gbk_loop (w ∷ code) (chinese p q t) =
      let shorter = length-encode_gbk_loop code t in ground arith

  -- A text of ASCII and of the Chinese characters of the tables, none of them the terminator, is
  -- encoded, and its GBK bytes decode to the text again, for tables that are inverse to each other
  -- and whose codes lie in the range of code_unicode.
  pub decode_gbk-encode_gbk :
      (code : List ℕ)
      → IsGbkText code
      → (gbk : List ℕ) × (encode_gbk code_gbk code ≡ some gbk)
        × (decode_gbk code_unicode gbk ≡ some (some code))
  unfolding encode_gbk
  decode_gbk-encode_gbk code t =
      let (size, e) = IsGbkText-sized code t in
      let gbk = encode_gbk_loop code_gbk code in
      let longer = length-encode_gbk_loop code t in
      (
        gbk,
        rw (e, encode_gbk) refl,
        decode_gbk_lem gbk code (decode_gbk-encode_loop (length gbk + 1) code t (omega arith)),
      )

lead_cut : (b : ℕ) → 0x82 ≤ b → b ≤ 0xfd → gbk_lead (b ∷ 0 ∷ []) ≡ char 2 (b * 2 ^ 8)
unfolding gbk_lead
lead_cut b p q = ground arith

-- A first byte from 0x82 to 0xfd with the end of the string in place of its second byte: the loop of
-- `decode_gbk_size` takes the terminator for that second byte and reads on behind it, outside the
-- array when the array ends there.
pub decode_gbk_size-outside : (b : ℕ) → 0x82 ≤ b → b ≤ 0xfd → decode_gbk_size (b ∷ 0 ∷ []) ≡ none
unfolding decode_gbk_size decode_gbk_size_loop gbk_lead
decode_gbk_size-outside b p q = rw (lead_cut b p q, decode_gbk_size_loop) refl
