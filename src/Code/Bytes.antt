-- ===== src/Code/Bytes.antt =====
-- The bytes of a character as arithmetic, and one round of each loop on them.
use zxlib.Prelude.{
  ℕ, ◌+◌, ◌*◌, ◌/◌, ◌%◌, ◌^◌, ◌<◌, ◌≤◌, ◌≡◌, ◌∙◌, arith, false, some, List, [], ◌∷◌, ◌++◌, bit_and,
  bit_or, ltb, dec_lt, lt→ltb, ge→ltb, ◌==◌, if◌then◌else◌, drop, get_or, length,
}
use zxlib.Prelude.Bits.{bit_and_mask, bit_or_fields, bit_or_comm, bit_and_high}
use zxlib.Code.Utf8.{encode_word, encode_word_size, skip, lead, is_tail, decode_word}

or_field : (k q r : ℕ) → r < 2 ^ k → bit_or r (q * 2 ^ k) ≡ q * 2 ^ k + r
or_field k q r h = bit_or_comm r (q * 2 ^ k) ∙ bit_or_fields k q r h

tail_byte : (x : ℕ) → bit_or (bit_and x 0x3f) 0x80 % 2 ^ 8 ≡ 128 + x % 64
tail_byte x = ground (arith, bit_and_mask 6 x, or_field 6 2 (x % 64) (omega arith))

head_two : (x : ℕ) → bit_or (bit_and x 0x1f) 0xc0 % 2 ^ 8 ≡ 192 + x % 32
head_two x = ground (arith, bit_and_mask 5 x, or_field 5 6 (x % 32) (omega arith))

head_three : (x : ℕ) → bit_or (bit_and x 0x0f) 0xe0 % 2 ^ 8 ≡ 224 + x % 16
head_three x = ground (arith, bit_and_mask 4 x, or_field 4 14 (x % 16) (omega arith))

pub encode_word_lem :
    (w : ℕ)
    → w < 2 ^ 16
    → encode_word w ≡ (
        if ltb w 0x80
        then w ∷ []
        else if ltb w 0x800
        then (192 + w / 64) ∷ (128 + w % 64) ∷ []
        else (224 + w / 4096) ∷ (128 + w / 64 % 64) ∷ (128 + w % 64) ∷ [])
unfolding encode_word
encode_word_lem w h = ground (
  arith,
  bit_and_mask 7 w,
  head_two (w / 2 ^ 6),
  head_three (w / 2 ^ 12),
  tail_byte (w / 2 ^ 6),
  tail_byte w,
)

pub is_tail_lem : (u : ℕ) → u < 2 ^ 8 → is_tail u ≡ (u / 64 == 2)
is_tail_lem u h = ground (arith, bit_and_high 6 u 3, bit_and_mask 2 (u / 64))

pub is_two_lem : (u : ℕ) → u < 2 ^ 8 → (bit_and u 0xe0 == 0xc0) ≡ (u / 32 == 6)
is_two_lem u h = ground (arith, bit_and_high 5 u 7, bit_and_mask 3 (u / 32))

pub is_three_lem : (u : ℕ) → u < 2 ^ 8 → (bit_and u 0xf0 == 0xe0) ≡ (u / 16 == 14)
is_three_lem u h = ground (arith, bit_and_high 4 u 15, bit_and_mask 4 (u / 16))

low_three : (u : ℕ) → bit_and (u / 2 ^ 2) 0x07 ≡ u / 4 % 8
low_three u = bit_and_mask 3 (u / 4)

low_four : (u : ℕ) → bit_and (u / 2 ^ 2) 0x0f ≡ u / 4 % 16
low_four u = bit_and_mask 4 (u / 4)

low_six : (u : ℕ) → bit_and u 0x3f ≡ u % 64
low_six u = bit_and_mask 6 u

module _ (w : ℕ) (rest : List ℕ) where
  lead_one : 0 < w → w < 128 → lead (w ∷ rest) ≡ skip 1
  unfolding lead
  lead_one p q = ground arith

  lead_two : 128 ≤ w → w < 2048 → lead ((192 + w / 64) ∷ (128 + w % 64) ∷ rest) ≡ skip 2
  unfolding lead
  lead_two p q =
      ground
        (arith, is_two_lem (192 + w / 64) (omega arith), is_tail_lem (128 + w % 64) (omega arith))

  lead_three :
      2048 ≤ w
      → w < 2 ^ 16
      → lead ((224 + w / 4096) ∷ (128 + w / 64 % 64) ∷ (128 + w % 64) ∷ rest) ≡ skip 3
  unfolding lead
  lead_three p q = ground (
    arith,
    is_two_lem (224 + w / 4096) (omega arith),
    is_three_lem (224 + w / 4096) (omega arith),
    is_tail_lem (128 + w / 64 % 64) (omega arith),
    is_tail_lem (128 + w % 64) (omega arith),
  )

  decode_one : w < 128 → decode_word (w ∷ rest) ≡ some (1, w)
  unfolding decode_word
  decode_one q = ground arith

  decode_two :
      128 ≤ w → w < 2048 → decode_word ((192 + w / 64) ∷ (128 + w % 64) ∷ rest) ≡ some (2, w)
  unfolding decode_word
  decode_two p q = ground (
    arith,
    is_two_lem (192 + w / 64) (omega arith),
    low_three (192 + w / 64),
    low_six (128 + w % 64),
  )

  decode_three :
      2048 ≤ w
      → w < 2 ^ 16
      → decode_word ((224 + w / 4096) ∷ (128 + w / 64 % 64) ∷ (128 + w % 64) ∷ rest) ≡ some (3, w)
  unfolding decode_word
  decode_three p q = ground (
    arith,
    is_two_lem (224 + w / 4096) (omega arith),
    is_three_lem (224 + w / 4096) (omega arith),
    low_four (128 + w / 64 % 64),
    low_six (128 + w % 64),
  )

-- One character: what the loops of `decode_utf8_size` and `decode_utf8_3` make of its bytes.
pub record IsRound (w : ℕ) (rest utf8 : List ℕ) : Type 0 where
  pub leads : lead utf8 ≡ skip (encode_word_size w)
  pub word : decode_word utf8 ≡ some (encode_word_size w, w)
  pub after : drop (encode_word_size w) utf8 ≡ rest
  pub more : (get_or utf8 0 0 == 0) ≡ false
  pub size : length utf8 ≡ encode_word_size w + length rest

pub encode_word-IsRound :
    (w : ℕ) (rest : List ℕ) → 0 < w → w < 2 ^ 16 → IsRound w rest (encode_word w ++ rest)
unfolding encode_word_size
encode_word-IsRound w rest p q = elim (dec_lt w 128) [
  | yes a ↦
      rw (encode_word_lem w q, lt→ltb w 128 a)
        (record {
          leads = ground (arith, lead_one w rest p a);
          word = ground (arith, decode_one w rest a);
          after = ground arith;
          more = ground arith;
          size = ground arith;
        })
  | no a ↦ elim (dec_lt w 2048) [
    | yes b ↦
        rw (encode_word_lem w q, ge→ltb w 128 (omega arith), lt→ltb w 2048 b)
          (record {
            leads = ground (arith, lead_two w rest (omega arith) b);
            word = ground (arith, decode_two w rest (omega arith) b);
            after = ground arith;
            more = ground arith;
            size = ground arith;
          })
    | no b ↦
        rw (encode_word_lem w q, ge→ltb w 128 (omega arith), ge→ltb w 2048 (omega arith))
          (record {
            leads = ground (arith, lead_three w rest (omega arith) q);
            word = ground (arith, decode_three w rest (omega arith) q);
            after = ground arith;
            more = ground arith;
            size = ground arith;
          })
  ]
]
