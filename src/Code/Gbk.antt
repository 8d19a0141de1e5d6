-- ===== src/Code/Gbk.antt =====
-- The GBK half of code.c: `encode_gbk_size`, `encode_gbk_3`, `decode_gbk_size` and `decode_gbk_3`, over
-- the tables `code_gbk` and `code_unicode`. A byte string is the whole array, with its zero.
use zxlib.Prelude.{
  ℕ, zero, suc, ◌+◌, ◌-◌, ◌*◌, ◌/◌, ◌%◌, ◌^◌, Bool, ◌||◌, Option, none, some, List, [], ◌∷◌, ◌++◌,
  ltb, leb, ◌==◌, if◌then◌else◌, length, drop,
}

abbrev pub code_gbk_first : ℕ
code_gbk_first = 0x8140

abbrev pub code_gbk_last : ℕ
code_gbk_last = 0xfe9f

abbrev pub code_gbk_size : ℕ
code_gbk_size = 20902

abbrev pub code_unicode_first : ℕ
code_unicode_first = 0x4e00

abbrev pub code_unicode_last : ℕ
code_unicode_last = 0x9fa5

abbrev pub code_unicode_size : ℕ
code_unicode_size = 32096

abbrev pub is_outside : ℕ → Bool
is_outside word =
    ltb word code_unicode_first
    || ltb code_unicode_last word
    || leb code_gbk_size (word - code_unicode_first)

-- `none` is CODE_ERROR_SIZE.
unfoldable pub encode_gbk_size : List ℕ → Option ℕ
encode_gbk_size [] = some 0
encode_gbk_size (word ∷ code) =
    let rest = encode_gbk_size code in
    if word == 0
    then some 0
    else if ltb word 0x80
    then elim rest [ none ↦ none | some n ↦ some (n + 1) ]
    else if is_outside word
    then none
    else elim rest [ none ↦ none | some n ↦ some (n + 2) ]

unfoldable pub gbk_bytes : (code_gbk : ℕ → ℕ) → ℕ → List ℕ
gbk_bytes code_gbk word =
    if ltb word 0x80
    then word % 2 ^ 8 ∷ []
    else (code_gbk (word - code_unicode_first) / 2 ^ 8 % 2 ^ 8)
      ∷ (code_gbk (word - code_unicode_first) % 2 ^ 8)
      ∷ []

unfoldable pub encode_gbk_loop : (code_gbk : ℕ → ℕ) → List ℕ → List ℕ
encode_gbk_loop code_gbk [] = 0 ∷ []
encode_gbk_loop code_gbk (word ∷ code) =
    let rest = encode_gbk_loop code_gbk code in
    if word == 0 then 0 ∷ [] else gbk_bytes code_gbk word ++ rest

-- `encode_gbk_3(code, NULL, size)`, the array that it returns; `none` for NULL.
unfoldable pub encode_gbk : (code_gbk : ℕ → ℕ) → List ℕ → Option (List ℕ)
encode_gbk code_gbk code = elim (encode_gbk_size code) [
  | none ↦ none
  | some size ↦ some (encode_gbk_loop code_gbk code)
]

-- How the loops over bytes go on: at the zero, with a character of so many bytes and this code, with
-- an error, or with a byte that lies outside the array.
pub data GbkLead : Type 0 where
  stop : GbkLead
  char : (n word : ℕ) → GbkLead
  error : GbkLead
  outside : GbkLead

abbrev pub is_unknown : ℕ → Bool
is_unknown word =
    ltb word code_gbk_first
    || ltb code_gbk_last word
    || leb code_unicode_size (word - code_gbk_first)

unfoldable pub gbk_lead : List ℕ → GbkLead
gbk_lead [] = outside
gbk_lead (b ∷ []) = if b == 0 then stop else if ltb b 0x80 then char 1 b else outside
gbk_lead (b ∷ c ∷ rest) =
    if b == 0
    then stop
    else if ltb b 0x80
    then char 1 b
    else if is_unknown (b * 2 ^ 8 + c)
    then error
    else char 2 (b * 2 ^ 8 + c)

-- `none` is a read outside the array, `some none` CODE_ERROR_SIZE.
unfoldable pub decode_gbk_size_loop : ℕ → List ℕ → Option (Option ℕ)
decode_gbk_size_loop zero gbk = none
decode_gbk_size_loop (suc fuel) gbk = elim (gbk_lead gbk) [
  | stop ↦ some (some 0)
  | char n word ↦ elim (decode_gbk_size_loop fuel (drop n gbk)) [
    | none ↦ none
    | some none ↦ some none
    | some (some size) ↦ some (some (size + 1))
  ]
  | error ↦ some none
  | outside ↦ none
]

unfoldable pub decode_gbk_size : List ℕ → Option (Option ℕ)
decode_gbk_size gbk = decode_gbk_size_loop (length gbk + 1) gbk

-- The character that `decode_gbk_3` stores.
unfoldable pub gbk_char : (code_unicode : ℕ → ℕ) → (n word : ℕ) → ℕ
gbk_char code_unicode n word = if n == 1 then word else code_unicode (word - code_gbk_first)

-- The loop of `decode_gbk_3`, after `decode_gbk_size` has found no error.
unfoldable pub decode_gbk_loop : (code_unicode : ℕ → ℕ) → ℕ → List ℕ → Option (List ℕ)
decode_gbk_loop code_unicode zero gbk = none
decode_gbk_loop code_unicode (suc fuel) gbk = elim (gbk_lead gbk) [
  | stop ↦ some []
  | char n word ↦ elim (decode_gbk_loop code_unicode fuel (drop n gbk)) [
    | none ↦ none
    | some code ↦ some (gbk_char code_unicode n word ∷ code)
  ]
  | error ↦ none
  | outside ↦ none
]

-- `decode_gbk_3(gbk, NULL, size)`: NULL is `some none`.
unfoldable pub decode_gbk : (code_unicode : ℕ → ℕ) → List ℕ → Option (Option (List ℕ))
decode_gbk code_unicode gbk = elim (decode_gbk_size gbk) [
  | none ↦ none
  | some none ↦ some none
  | some (some size) ↦ elim (decode_gbk_loop code_unicode (length gbk + 1) gbk) [
    | none ↦ none
    | some code ↦ some (some code)
  ]
]
