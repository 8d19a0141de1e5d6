-- ===== src/Package/Info.antt =====
-- The info word of a packet: `_package_get_info` and `_package_set_info`.
use zxlib.Prelude.{ℕ, ◌+◌, ◌/◌, ◌%◌, ◌^◌, ◌<◌, ◌≡◌, refl, arith}
use zxlib.Prelude.Word.{shl, field, field_lem}
use zxlib.Package.{PackageInfo}

abbrev pub bit_info_id : ℕ
bit_info_id = 32

abbrev pub bit_info_num : ℕ
bit_info_num = 32

abbrev pub offset_info_num : ℕ
offset_info_num = bit_info_id

unfoldable pub get_info_word : ℕ → PackageInfo
get_info_word d = record { id = field 0 bit_info_id d; num = field offset_info_num bit_info_num d }

unfoldable pub set_info_word : PackageInfo → ℕ
set_info_word i = (shl i.id 0 + shl i.num offset_info_num) % 2 ^ 64

pub record IsInfo (i : PackageInfo) : Type 0 where
  pub id : i.id < 2 ^ bit_info_id
  pub num : i.num < 2 ^ bit_info_num

pub get_info_word_lem :
    (d : ℕ) → get_info_word d ≡ record { id = d % 2 ^ 32; num = d / 2 ^ 32 % 2 ^ 32 }
unfolding get_info_word
get_info_word_lem d = ground (arith, field_lem 0 32 d refl, field_lem 32 32 d refl)

pub get_info_word-set_info_word : (i : PackageInfo) → IsInfo i → get_info_word (set_info_word i) ≡ i
unfolding set_info_word
get_info_word-set_info_word i h = ground (arith, get_info_word_lem (set_info_word i))

pub set_info_word-get_info_word : (d : ℕ) → d < 2 ^ 64 → set_info_word (get_info_word d) ≡ d
unfolding set_info_word
set_info_word-get_info_word d h = ground (arith, get_info_word_lem d)
