-- ===== src/Package/Code.antt =====
-- The code word of a packet: `_package_get_code` and `_package_set_code`.
use zxlib.Prelude.{ℕ, ◌+◌, ◌/◌, ◌%◌, ◌^◌, ◌<◌, ◌≡◌, refl, arith}
use zxlib.Prelude.Word.{shl, field, field_lem}
use zxlib.Package.{PackageCode}

abbrev pub bit_code_id : ℕ
bit_code_id = 32

abbrev pub bit_code_sign : ℕ
bit_code_sign = 4

abbrev pub bit_code_num : ℕ
bit_code_num = 16

abbrev pub bit_code_i : ℕ
bit_code_i = 4

abbrev pub offset_code_sign : ℕ
offset_code_sign = bit_code_id

abbrev pub offset_code_num : ℕ
offset_code_num = offset_code_sign + bit_code_sign

abbrev pub offset_code_i0 : ℕ
offset_code_i0 = offset_code_num + bit_code_num

abbrev pub offset_code_i1 : ℕ
offset_code_i1 = offset_code_i0 + bit_code_i

abbrev pub offset_code_i2 : ℕ
offset_code_i2 = offset_code_i1 + bit_code_i

unfoldable pub get_code_word : ℕ → PackageCode
get_code_word d = record {
  id = field 0 bit_code_id d;
  sign = field offset_code_sign bit_code_sign d;
  num = field offset_code_num bit_code_num d;
  i0 = field offset_code_i0 bit_code_i d;
  i1 = field offset_code_i1 bit_code_i d;
  i2 = field offset_code_i2 bit_code_i d;
}

unfoldable pub set_code_word : PackageCode → ℕ
set_code_word c =
    (shl c.id 0
      + shl c.sign offset_code_sign
      + shl c.num offset_code_num
      + shl c.i0 offset_code_i0
      + shl c.i1 offset_code_i1
      + shl c.i2 offset_code_i2)
    % 2 ^ 64

-- Each field fits its bits.
pub record IsCode (c : PackageCode) : Type 0 where
  pub id : c.id < 2 ^ bit_code_id
  pub sign : c.sign < 2 ^ bit_code_sign
  pub num : c.num < 2 ^ bit_code_num
  pub i0 : c.i0 < 2 ^ bit_code_i
  pub i1 : c.i1 < 2 ^ bit_code_i
  pub i2 : c.i2 < 2 ^ bit_code_i

pub get_code_word_lem :
    (d : ℕ)
    → get_code_word d ≡ record {
      id = d % 2 ^ 32;
      sign = d / 2 ^ 32 % 2 ^ 4;
      num = d / 2 ^ 36 % 2 ^ 16;
      i0 = d / 2 ^ 52 % 2 ^ 4;
      i1 = d / 2 ^ 56 % 2 ^ 4;
      i2 = d / 2 ^ 60 % 2 ^ 4;
    }
unfolding get_code_word
get_code_word_lem d = ground (
  arith,
  field_lem 0 32 d refl,
  field_lem 32 4 d refl,
  field_lem 36 16 d refl,
  field_lem 52 4 d refl,
  field_lem 56 4 d refl,
  field_lem 60 4 d refl,
)

-- What is packed is read back.
pub get_code_word-set_code_word : (c : PackageCode) → IsCode c → get_code_word (set_code_word c) ≡ c
unfolding set_code_word
get_code_word-set_code_word c h = ground (arith, get_code_word_lem (set_code_word c))

pub set_code_word-get_code_word : (d : ℕ) → d < 2 ^ 64 → set_code_word (get_code_word d) ≡ d
unfolding set_code_word
set_code_word-get_code_word d h = ground (arith, get_code_word_lem d)
