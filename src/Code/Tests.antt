-- ===== src/Code/Tests.antt =====
-- Runs of the UTF-8 conversions.
use zxlib.Prelude.{ℕ, ◌+◌, ◌≡◌, ◌⊎◌, refl, arith, none, some, List, [], ◌∷◌, length}
use zxlib.Code.Utf8.{encode_utf8_size, encode_utf8, decode_utf8_size, decode_utf8}
use zxlib.Code.RoundTrip.{empty, word, decode_utf8-encode_utf8}
use zxlib.Code.Sizes.{decode_utf8_total}
use zxlib.Code.Gbk.{encode_gbk, decode_gbk, decode_gbk_size}
use zxlib.Code.Choice.{encode, decode}
use zxlib.Code.Chosen.{IsChosen, decode-IsChosen}
use zxlib.Code.GbkTrip.{
  AreInverse, finish, ascii, chinese, decode_gbk-encode_gbk, decode_gbk_size-outside,
}

-- A, é, 中 and a lone surrogate.
abbrev text : List ℕ
text = 0x41 ∷ 0xe9 ∷ 0x4e2d ∷ 0xd800 ∷ []

test-encode_utf8 :
    encode_utf8 text ≡ 0x41 ∷ 0xc3 ∷ 0xa9 ∷ 0xe4 ∷ 0xb8 ∷ 0xad ∷ 0xed ∷ 0xa0 ∷ 0x80 ∷ []
unfolding encode_utf8 zxlib.Code.Utf8.encode_word
test-encode_utf8 = refl

-- A continuation byte is missing at the end of the string.
test-decode_utf8-cut : decode_utf8 (0xe4 ∷ 0xb8 ∷ []) ≡ some none
unfolding decode_utf8 decode_utf8_size zxlib.Code.Utf8.decode_utf8_size_loop zxlib.Code.Utf8.lead
test-decode_utf8-cut = refl

-- An overlong form of the letter A is accepted.
test-decode_utf8-overlong : decode_utf8 (0xc1 ∷ 0x81 ∷ []) ≡ some (some (0x41 ∷ []))
unfolding decode_utf8 decode_utf8_size zxlib.Code.Utf8.decode_utf8_size_loop zxlib.Code.Utf8.lead
    zxlib.Code.Utf8.decode_utf8_loop zxlib.Code.Utf8.decode_word
test-decode_utf8-overlong = refl

decode_utf8-encode_utf8_example :
    (decode_utf8_size (encode_utf8 text) ≡ some (some 4))
    × (decode_utf8 (encode_utf8 text) ≡ some (some text))
decode_utf8-encode_utf8_example = decode_utf8-encode_utf8 text (
    word (omega arith) (omega arith) (
      word (omega arith) (omega arith)
        (word (omega arith) (omega arith) (word (omega arith) (omega arith) empty))))

decode_utf8_total_example :
    ((decode_utf8_size (0xc3 ∷ 0x41 ∷ []) ≡ some none)
      × (decode_utf8 (0xc3 ∷ 0x41 ∷ []) ≡ some none))
    ⊎ ((code : List ℕ) × (decode_utf8_size (0xc3 ∷ 0x41 ∷ []) ≡ some (some (length code)))
        × (decode_utf8 (0xc3 ∷ 0x41 ∷ []) ≡ some (some code)))
decode_utf8_total_example = decode_utf8_total (0xc3 ∷ 0x41 ∷ [])

-- A table that counts the characters through, in place of code_gbk, and its inverse.
abbrev counted_gbk : ℕ → ℕ
counted_gbk i = 0x8140 + i

abbrev counted_unicode : ℕ → ℕ
counted_unicode i = 0x4e00 + i

counted-AreInverse : AreInverse counted_gbk counted_unicode
counted-AreInverse = record {
  low = λ i l. omega arith;
  high = λ i l. omega arith;
  back = λ i l. omega arith;
}

abbrev chinese_text : List ℕ
chinese_text = 0x41 ∷ 0x4e2d ∷ 0x9fa5 ∷ []

test-encode_gbk :
    encode_gbk counted_gbk chinese_text ≡ some (0x41 ∷ 0x81 ∷ 0x6d ∷ 0xd2 ∷ 0xe5 ∷ 0 ∷ [])
unfolding encode_gbk zxlib.Code.Gbk.encode_gbk_size zxlib.Code.Gbk.encode_gbk_loop
    zxlib.Code.Gbk.gbk_bytes
test-encode_gbk = refl

decode_gbk-encode_gbk_example :
    (gbk : List ℕ) × (encode_gbk counted_gbk chinese_text ≡ some gbk)
    × (decode_gbk counted_unicode gbk ≡ some (some chinese_text))
decode_gbk-encode_gbk_example =
    decode_gbk-encode_gbk counted_gbk counted_unicode counted-AreInverse chinese_text (
      ascii (omega arith) (omega arith)
        (chinese (omega arith) (omega arith) (chinese (omega arith) (omega arith) finish)))

decode_gbk_size-outside_example : decode_gbk_size (0xb0 ∷ 0 ∷ []) ≡ none
decode_gbk_size-outside_example = decode_gbk_size-outside 0xb0 (omega arith) (omega arith)

-- GBK for 中, which is no UTF-8: the coding changes.
test-decode : decode counted_unicode 0 (0x81 ∷ 0x6d ∷ []) ≡ some (1, some (0x4e2d ∷ []))
unfolding decode zxlib.Code.Choice.decode_size zxlib.Code.Choice.decode_size_loop
    zxlib.Code.Choice.decode_size_as zxlib.Code.Choice.decode_as decode_gbk decode_gbk_size
    decode_utf8_size zxlib.Code.Utf8.decode_utf8_size_loop zxlib.Code.Utf8.lead
    zxlib.Code.Gbk.decode_gbk_size_loop zxlib.Code.Gbk.gbk_lead zxlib.Code.Gbk.decode_gbk_loop
    zxlib.Code.Gbk.gbk_char
test-decode = refl

decode-IsChosen_example : IsChosen counted_unicode 0 (0x81 ∷ 0x6d ∷ [])
decode-IsChosen_example = decode-IsChosen counted_unicode 0 (0x81 ∷ 0x6d ∷ []) (omega arith)
