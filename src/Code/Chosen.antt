-- ===== src/Code/Chosen.antt =====
-- The coding that `decode` takes, and the text that it returns.
use zxlib.Prelude.{
  ℕ, zero, suc, ◌+◌, ◌-◌, ◌<◌, ◌≡◌, ◌≢◌, inl, inr, refl, subst, length-drop, arith, none, some,
  List, [], ◌∷◌, ◌++◌, length, drop,
}
use zxlib.Code.Sizes.{decode_utf8_total}
use zxlib.Code.Gbk.{
  GbkLead, stop, char, error, outside, gbk_lead, decode_gbk_size_loop, decode_gbk_size, gbk_char,
  decode_gbk_loop, decode_gbk,
}
use zxlib.Code.RoundTrip.{IsText, decode_utf8-encode_utf8}
use zxlib.Code.Choice.{encode, decode_size_as, decode_as, decode_size_loop, decode_size, decode}

-- The characters at the front are read one after the other, and then a byte outside the array.
pub data ReadsBehind : List ℕ → Type 0 where
  now : {gbk : List ℕ} → gbk_lead gbk ≡ outside → ReadsBehind gbk
  later :
      {gbk : List ℕ} (n word : ℕ)
      → gbk_lead gbk ≡ char n word
      → ReadsBehind (drop n gbk)
      → ReadsBehind gbk

-- What a character takes.
taken_by : GbkLead → ℕ
taken_by (char n word) = n
taken_by stop = 1
taken_by error = 1
taken_by outside = 1

taken_by-pos : (gbk : List ℕ) → 0 < taken_by (gbk_lead gbk)
unfolding gbk_lead taken_by
taken_by-pos [] = omega arith
taken_by-pos (b ∷ []) = ground arith
taken_by-pos (b ∷ c ∷ rest) = ground arith

char-pos : (gbk : List ℕ) (n word : ℕ) → gbk_lead gbk ≡ char n word → 0 < n
unfolding taken_by
char-pos gbk n word e = subst (λ (l : GbkLead). 0 < taken_by l) e (taken_by-pos gbk)

char_drop :
    (fuel : ℕ) (gbk : List ℕ) (n word : ℕ)
    → gbk_lead gbk ≡ char n word
    → length gbk < suc fuel
    → length (drop n gbk) < fuel
unfolding gbk_lead
char_drop fuel [] n word e h = absurd cc
char_drop fuel (b ∷ gbk) n word e h =
    omega (arith, length-drop n (b ∷ gbk), char-pos (b ∷ gbk) n word e)

module _ (code_unicode : ℕ → ℕ) where
  -- What the two loops over GBK bytes find.
  data GbkOutcome (fuel : ℕ) (gbk : List ℕ) : Type 0 where
    runs_out : ReadsBehind gbk → decode_gbk_size_loop fuel gbk ≡ none → GbkOutcome fuel gbk
    refuses : decode_gbk_size_loop fuel gbk ≡ some none → GbkOutcome fuel gbk
    reads :
        (code : List ℕ)
        → decode_gbk_size_loop fuel gbk ≡ some (some (length code))
        → decode_gbk_loop code_unicode fuel gbk ≡ some code
        → GbkOutcome fuel gbk

  GbkOutcome-lead :
      (fuel : ℕ) (gbk : List ℕ) (l : GbkLead)
      → gbk_lead gbk ≡ l
      → length gbk < suc fuel
      → ((n : ℕ) → length (drop n gbk) < fuel → GbkOutcome fuel (drop n gbk))
      → GbkOutcome (suc fuel) gbk
  unfolding decode_gbk_size_loop decode_gbk_loop
  GbkOutcome-lead fuel gbk stop e lt h =
      reads [] (rw (e, decode_gbk_size_loop) refl) (rw (e, decode_gbk_loop) refl)
  GbkOutcome-lead fuel gbk error e lt h = refuses (rw (e, decode_gbk_size_loop) refl)
  GbkOutcome-lead fuel gbk outside e lt h = runs_out (now e) (rw (e, decode_gbk_size_loop) refl)
  GbkOutcome-lead fuel gbk (char n word) e lt h = elim (h n (char_drop fuel gbk n word e lt)) [
    | runs_out b f ↦ runs_out (later n word e b) (rw (e, f, decode_gbk_size_loop) refl)
    | refuses f ↦ refuses (rw (e, f, decode_gbk_size_loop) refl)
    | reads code f g ↦
        reads (gbk_char code_unicode n word ∷ code) (rw (e, f, decode_gbk_size_loop) (ground arith))
          (rw (e, g, decode_gbk_loop) refl)
  ]

  loops-GbkOutcome : (fuel : ℕ) (gbk : List ℕ) → length gbk < fuel → GbkOutcome fuel gbk
  loops-GbkOutcome zero gbk h = absurd (omega arith)
  loops-GbkOutcome (suc fuel) gbk h =
      GbkOutcome-lead fuel gbk (gbk_lead gbk) refl h (λ n lt. loops-GbkOutcome fuel (drop n gbk) lt)

  -- What a string is under one coding: read outside its array, refused, or read as a text.
  pub data IsReadAs (type : ℕ) (a : List ℕ) : Type 0 where
    beyond : ReadsBehind (a ++ 0 ∷ []) → decode_size_as type a ≡ none → IsReadAs type a
    refused :
        decode_size_as type a ≡ some none
        → decode_as code_unicode type a ≡ some none
        → IsReadAs type a
    text :
        (code : List ℕ)
        → decode_size_as type a ≡ some (some (length code))
        → decode_as code_unicode type a ≡ some (some code)
        → IsReadAs type a

  utf8-IsReadAs : (a : List ℕ) → IsReadAs 0 a
  unfolding decode_size_as decode_as
  utf8-IsReadAs a = elim (decode_utf8_total a) [
    | inl (e, f) ↦ refused e f
    | inr (code, e, f) ↦ text code e f
  ]

  gbk-IsReadAs : (a : List ℕ) → IsReadAs 1 a
  unfolding decode_size_as decode_as decode_gbk decode_gbk_size
  gbk-IsReadAs a =
      let gbk = a ++ 0 ∷ [] in
      elim (loops-GbkOutcome (length gbk + 1) gbk (omega arith)) [
        | runs_out b e ↦ beyond b e
        | refuses e ↦
            let size : decode_gbk_size gbk ≡ some none = e in refused e (rw (size, decode_gbk) refl)
        | reads code e f ↦
            let size : decode_gbk_size gbk ≡ some (some (length code)) = e in
            text code e (rw (size, f, decode_gbk) refl)
      ]

  -- What `decode` does with a string: it keeps the coding, changes to the other one, refuses the
  -- string, or reads behind the end of the array when it tries GBK.
  pub data IsChosen (type : ℕ) (a : List ℕ) : Type 0 where
    kept :
        (code : List ℕ)
        → decode_as code_unicode type a ≡ some (some code)
        → decode code_unicode type a ≡ some (type, some code)
        → IsChosen type a
    switched :
        (code : List ℕ)
        → decode_as code_unicode type a ≡ some none
        → decode_as code_unicode (1 - type) a ≡ some (some code)
        → decode code_unicode type a ≡ some (1 - type, some code)
        → IsChosen type a
    neither :
        decode_as code_unicode type a ≡ some none
        → decode_as code_unicode (1 - type) a ≡ some none
        → decode code_unicode type a ≡ some (type, none)
        → IsChosen type a
    reads_behind : ReadsBehind (a ++ 0 ∷ []) → decode code_unicode type a ≡ none → IsChosen type a

  decode_beyond :
      (type : ℕ) (a : List ℕ) → decode_size type a ≡ none → decode code_unicode type a ≡ none
  unfolding decode
  decode_beyond type a e = rw (e, decode) refl

  decode_refused :
      (type new : ℕ) (a : List ℕ)
      → decode_size type a ≡ some (new, none)
      → decode code_unicode type a ≡ some (new, none)
  unfolding decode
  decode_refused type new a e = rw (e, decode) refl

  decode_text :
      (type new size : ℕ) (a code : List ℕ)
      → decode_size type a ≡ some (new, some size)
      → decode_as code_unicode new a ≡ some (some code)
      → decode code_unicode type a ≡ some (new, some code)
  unfolding decode
  decode_text type new size a code e f = rw (e, f, decode) refl

  -- The size pass of UTF-8 stays inside the array.
  within : (a : List ℕ) → decode_size_as 0 a ≢ none
  unfolding decode_size_as
  within a e = elim (decode_utf8_total a) [ inl (f, g) ↦ cc | inr (code, f, g) ↦ cc ]

  -- From UTF-8: the only other coding of the list is GBK.
  utf8-IsChosen : (a : List ℕ) → IsReadAs 0 a → IsReadAs 1 a → IsChosen 0 a
  unfolding decode_size decode_size_loop
  utf8-IsChosen a (text code e f) other =
      kept code f (decode_text 0 0 (length code) a code (rw (e, decode_size) refl) f)
  utf8-IsChosen a (refused e f) (text code e' f') =
      switched code f f' (decode_text 0 1 (length code) a code (rw (e, e', decode_size) refl) f')
  utf8-IsChosen a (refused e f) (refused e' f') =
      neither f f' (decode_refused 0 0 a (rw (e, e', decode_size) refl))
  utf8-IsChosen a (refused e f) (beyond b e') =
      reads_behind b (decode_beyond 0 a (rw (e, e', decode_size) refl))
  utf8-IsChosen a (beyond b e) other = absurd (within a e)

  gbk-IsChosen : (a : List ℕ) → IsReadAs 1 a → IsReadAs 0 a → IsChosen 1 a
  unfolding decode_size decode_size_loop
  gbk-IsChosen a (text code e f) other =
      kept code f (decode_text 1 1 (length code) a code (rw (e, decode_size) refl) f)
  gbk-IsChosen a (beyond b e) other = reads_behind b (decode_beyond 1 a (rw (e, decode_size) refl))
  gbk-IsChosen a (refused e f) (text code e' f') =
      switched code f f' (decode_text 1 0 (length code) a code (rw (e, e', decode_size) refl) f')
  gbk-IsChosen a (refused e f) (refused e' f') =
      neither f f' (decode_refused 1 1 a (rw (e, e', decode_size) refl))
  gbk-IsChosen a (refused e f) (beyond b e') = absurd (within a e')

  -- For every string and either coding as code_type, one of four: `decode` keeps the coding, which
  -- reads the string as the text returned; it changes to the other one, which does when the first
  -- does not; neither does, it returns NULL and leaves code_type alone; or reading the
  -- string as GBK, character after character, reads a byte outside the array.
  pub decode-IsChosen : (type : ℕ) (a : List ℕ) → type < 2 → IsChosen type a
  decode-IsChosen zero a h = utf8-IsChosen a (utf8-IsReadAs a) (gbk-IsReadAs a)
  decode-IsChosen (suc zero) a h = gbk-IsChosen a (gbk-IsReadAs a) (utf8-IsReadAs a)
  decode-IsChosen (suc (suc n)) a h = absurd (omega arith)

  -- With UTF-8 as code_type, `decode` takes what `encode` has made of a text of 16-bit characters,
  -- none of them the terminator, back to the text and leaves code_type alone.
  pub decode-encode :
      (code : List ℕ) → IsText code → decode code_unicode 0 (encode code) ≡ some (0, some code)
  unfolding encode decode_size decode_size_as decode_as
  decode-encode code t =
      let (size, words) = decode_utf8-encode_utf8 code t in
      decode_text 0 0 (length code) (encode code) code (rw (size, decode_size) refl) words
