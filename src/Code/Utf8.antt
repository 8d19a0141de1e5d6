-- ===== src/Code/Utf8.antt =====
-- The UTF-8 half of code.c: `encode_utf8_size`, `encode_utf8_3`, `decode_utf8_size` and
-- `decode_utf8_3`. A string is the list of its units, of 16 bits for `unicode` and of 8 bits for
-- `ansi`; the array holds a zero behind it.
use zxlib.Prelude.{
  ℕ, zero, suc, ◌+◌, ◌*◌, ◌/◌, ◌%◌, ◌^◌, Bool, true, false, not, ◌||◌, Option, none, some, List, [],
  ◌∷◌, ◌++◌, bit_and, bit_or, ltb, ◌==◌, if◌then◌else◌, get_or, length, drop,
}

-- The bytes of one character: the body of the loop of `encode_utf8_3`. The stores into `ansi` keep
-- eight bits.
unfoldable pub encode_word : ℕ → List ℕ
encode_word word =
    if ltb word 0x80
    then bit_and word 0x7f % 2 ^ 8 ∷ []
    else if ltb word 0x800
    then bit_or (bit_and (word / 2 ^ 6) 0x1f) 0xc0 % 2 ^ 8
      ∷ bit_or (bit_and word 0x3f) 0x80 % 2 ^ 8
      ∷ []
    else bit_or (bit_and (word / 2 ^ 12) 0x0f) 0xe0 % 2 ^ 8
      ∷ bit_or (bit_and (word / 2 ^ 6) 0x3f) 0x80 % 2 ^ 8
      ∷ bit_or (bit_and word 0x3f) 0x80 % 2 ^ 8
      ∷ []

unfoldable pub encode_word_size : ℕ → ℕ
encode_word_size word = if ltb word 0x80 then 1 else if ltb word 0x800 then 2 else 3

unfoldable pub encode_utf8_size : List ℕ → ℕ
encode_utf8_size [] = 0
encode_utf8_size (word ∷ code) =
    let rest = encode_utf8_size code in if word == 0 then 0 else encode_word_size word + rest

-- What `encode_utf8_3` leaves before the terminating zero of `utf8`.
unfoldable pub encode_utf8 : List ℕ → List ℕ
encode_utf8 [] = []
encode_utf8 (word ∷ code) =
    let rest = encode_utf8 code in if word == 0 then [] else encode_word word ++ rest

-- How the loop of `decode_utf8_size` goes on from the bytes at `utf8_index`.
pub data Lead : Type 0 where
  stop : Lead
  skip : ℕ → Lead
  error : Lead

abbrev pub is_tail : ℕ → Bool
is_tail u = bit_and u 0xc0 == 0x80

unfoldable pub lead : List ℕ → Lead
lead utf8 =
    let u1 = get_or utf8 0 0 in
    if u1 == 0
    then stop
    else if ltb u1 0x80
    then skip 1
    else if bit_and u1 0xe0 == 0xc0
    then (if not (is_tail (get_or utf8 1 0)) then error else skip 2)
    else if bit_and u1 0xf0 == 0xe0
    then (if not (is_tail (get_or utf8 1 0)) || not (is_tail (get_or utf8 2 0))
        then error
        else skip 3)
    else error

-- `some none` is CODE_ERROR_SIZE, `none` is a loop that does not end within the fuel.
unfoldable pub decode_utf8_size_loop : ℕ → List ℕ → Option (Option ℕ)
decode_utf8_size_loop zero utf8 = none
decode_utf8_size_loop (suc fuel) utf8 = elim (lead utf8) [
  | stop ↦ some (some 0)
  | skip n ↦ elim (decode_utf8_size_loop fuel (drop n utf8)) [
    | none ↦ none
    | some none ↦ some none
    | some (some size) ↦ some (some (size + 1))
  ]
  | error ↦ some none
]

unfoldable pub decode_utf8_size : List ℕ → Option (Option ℕ)
decode_utf8_size utf8 = decode_utf8_size_loop (length utf8 + 1) utf8

-- One round of the loop of `decode_utf8_3`: the bytes taken and the character stored. The
-- continuation bytes are not tested here. A byte of no known form takes nothing: the code then
-- stays where it is for ever.
unfoldable pub decode_word : List ℕ → Option (ℕ × ℕ)
decode_word utf8 =
    let u1 = get_or utf8 0 0 in
    let u2 = get_or utf8 1 0 in
    let u3 = get_or utf8 2 0 in
    if ltb u1 0x80
    then some (1, (0 * 2 ^ 8 + u1) % 2 ^ 16)
    else if bit_and u1 0xe0 == 0xc0
    then some (
      2,
      (bit_and (u1 / 2 ^ 2) 0x07 % 2 ^ 8 * 2 ^ 8 + (u1 * 2 ^ 6 + bit_and u2 0x3f) % 2 ^ 8) % 2 ^ 16,
    )
    else if bit_and u1 0xf0 == 0xe0
    then some (
      3,
      ((u1 * 2 ^ 4 + bit_and (u2 / 2 ^ 2) 0x0f) % 2 ^ 8 * 2 ^ 8
            + (u2 * 2 ^ 6 + bit_and u3 0x3f) % 2 ^ 8)
          % 2 ^ 16,
    )
    else none

unfoldable pub decode_utf8_loop : ℕ → List ℕ → Option (List ℕ)
decode_utf8_loop zero utf8 = none
decode_utf8_loop (suc fuel) utf8 = elim (get_or utf8 0 0 == 0) [
  | true ↦ some []
  | false ↦ elim (decode_word utf8) [
    | none ↦ none
    | some (n, word) ↦ elim (decode_utf8_loop fuel (drop n utf8)) [
      | none ↦ none
      | some code ↦ some (word ∷ code)
    ]
  ]
]

-- `decode_utf8_3(utf8, NULL, size)`: NULL for CODE_ERROR_SIZE is `some none`.
unfoldable pub decode_utf8 : List ℕ → Option (Option (List ℕ))
decode_utf8 utf8 = elim (decode_utf8_size utf8) [
  | none ↦ none
  | some none ↦ some none
  | some (some size) ↦ elim (decode_utf8_loop (length utf8 + 1) utf8) [
    | none ↦ none
    | some code ↦ some (some code)
  ]
]
