-- ===== src/Code/Choice.antt =====
-- The choice between UTF-8 and GBK in code.c: `__decode_size`, `__decode`, `decode_size`, `encode` and
-- `decode`.
-- The shared `code_type` is an argument and a result. A string is its bytes before the zero.
use zxlib.Prelude.{ℕ, Option, none, some, List, [], ◌∷◌, ◌++◌, ◌==◌, if◌then◌else◌}
use zxlib.Code.Utf8.{encode_utf8, decode_utf8_size, decode_utf8}
use zxlib.Code.Gbk.{decode_gbk_size, decode_gbk}

abbrev pub code_ansi_utf8 : ℕ
code_ansi_utf8 = 0

abbrev pub code_ansi_gbk : ℕ
code_ansi_gbk = 1

abbrev pub code_ansi : List ℕ
code_ansi = code_ansi_utf8 ∷ code_ansi_gbk ∷ []

unfoldable pub encode : List ℕ → List ℕ
encode u = encode_utf8 u

-- `__decode_size`. `none` is a read outside the array, `some none` CODE_ERROR_SIZE.
unfoldable pub decode_size_as : ℕ → List ℕ → Option (Option ℕ)
decode_size_as type a =
    if type == code_ansi_utf8
    then decode_utf8_size a
    else if type == code_ansi_gbk
    then decode_gbk_size (a ++ 0 ∷ [])
    else some none

-- `__decode` without an array of the caller. `some none` is NULL.
unfoldable pub decode_as :
    (code_unicode : ℕ → ℕ) → (code_type : ℕ) → List ℕ → Option (Option (List ℕ))
decode_as code_unicode code_type a =
    if code_type == code_ansi_utf8
    then decode_utf8 a
    else if code_type == code_ansi_gbk
    then decode_gbk code_unicode (a ++ 0 ∷ [])
    else some none

-- The loop of `decode_size` over the other codings: the new code_type and the size.
unfoldable pub decode_size_loop : List ℕ → (code_type : ℕ) → List ℕ → Option (ℕ × Option ℕ)
decode_size_loop [] code_type a = some (code_type, none)
decode_size_loop (type ∷ types) code_type a =
    let rest = decode_size_loop types code_type a in
    if type == code_type then rest else elim (decode_size_as type a) [
      | none ↦ none
      | some none ↦ rest
      | some (some size) ↦ some (type, some size)
    ]

unfoldable pub decode_size : (code_type : ℕ) → List ℕ → Option (ℕ × Option ℕ)
decode_size code_type a = elim (decode_size_as code_type a) [
  | none ↦ none
  | some none ↦ decode_size_loop code_ansi code_type a
  | some (some size) ↦ some (code_type, some size)
]

-- `decode`, with the code_type that it leaves.
unfoldable pub decode :
    (code_unicode : ℕ → ℕ) → (code_type : ℕ) → List ℕ → Option (ℕ × Option (List ℕ))
decode code_unicode code_type a = elim (decode_size code_type a) [
  | none ↦ none
  | some (new_type, none) ↦ some (new_type, none)
  | some (new_type, some size) ↦ elim (decode_as code_unicode new_type a) [
    | none ↦ none
    | some code ↦ some (new_type, code)
  ]
]
