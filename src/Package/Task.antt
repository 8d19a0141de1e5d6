-- ===== src/Package/Task.antt =====
-- The task word of a packet: `_package_get_task` and `_package_set_task`.
use zxlib.Prelude.{ℕ, ◌+◌, ◌/◌, ◌%◌, ◌^◌, ◌<◌, ◌≡◌, refl, arith}
use zxlib.Prelude.Word.{shl, field, field_lem}
use zxlib.Package.{PackageTask}

abbrev pub bit_task_id : ℕ
bit_task_id = 32

abbrev pub bit_task_flag : ℕ
bit_task_flag = 1

abbrev pub bit_task_type : ℕ
bit_task_type = 4

abbrev pub bit_task_compress : ℕ
bit_task_compress = 8

abbrev pub bit_task_encrypt : ℕ
bit_task_encrypt = 8

abbrev pub bit_task_state : ℕ
bit_task_state = 4

abbrev pub offset_task_empty : ℕ
offset_task_empty = bit_task_id

abbrev pub offset_task_cache : ℕ
offset_task_cache = offset_task_empty + bit_task_flag

abbrev pub offset_task_retrans : ℕ
offset_task_retrans = offset_task_cache + bit_task_flag

abbrev pub offset_task_type : ℕ
offset_task_type = offset_task_retrans + bit_task_flag

abbrev pub offset_task_compress : ℕ
offset_task_compress = offset_task_type + bit_task_type

abbrev pub offset_task_encrypt : ℕ
offset_task_encrypt = offset_task_compress + bit_task_compress

abbrev pub offset_task_state : ℕ
offset_task_state = offset_task_encrypt + bit_task_encrypt

unfoldable pub get_task_word : ℕ → PackageTask
get_task_word d = record {
  id = field 0 bit_task_id d;
  empty = field offset_task_empty bit_task_flag d;
  cache = field offset_task_cache bit_task_flag d;
  retrans = field offset_task_retrans bit_task_flag d;
  type = field offset_task_type bit_task_type d;
  compress = field offset_task_compress bit_task_compress d;
  encrypt = field offset_task_encrypt bit_task_encrypt d;
  state = field offset_task_state bit_task_state d;
}

unfoldable pub set_task_word : PackageTask → ℕ
set_task_word t =
    (shl t.id 0
      + shl t.empty offset_task_empty
      + shl t.cache offset_task_cache
      + shl t.retrans offset_task_retrans
      + shl t.type offset_task_type
      + shl t.compress offset_task_compress
      + shl t.encrypt offset_task_encrypt
      + shl t.state offset_task_state)
    % 2 ^ 64

pub record IsTask (t : PackageTask) : Type 0 where
  pub id : t.id < 2 ^ bit_task_id
  pub empty : t.empty < 2 ^ bit_task_flag
  pub cache : t.cache < 2 ^ bit_task_flag
  pub retrans : t.retrans < 2 ^ bit_task_flag
  pub type : t.type < 2 ^ bit_task_type
  pub compress : t.compress < 2 ^ bit_task_compress
  pub encrypt : t.encrypt < 2 ^ bit_task_encrypt
  pub state : t.state < 2 ^ bit_task_state

pub get_task_word_lem :
    (d : ℕ)
    → get_task_word d ≡ record {
      id = d % 2 ^ 32;
      empty = d / 2 ^ 32 % 2 ^ 1;
      cache = d / 2 ^ 33 % 2 ^ 1;
      retrans = d / 2 ^ 34 % 2 ^ 1;
      type = d / 2 ^ 35 % 2 ^ 4;
      compress = d / 2 ^ 39 % 2 ^ 8;
      encrypt = d / 2 ^ 47 % 2 ^ 8;
      state = d / 2 ^ 55 % 2 ^ 4;
    }
unfolding get_task_word
get_task_word_lem d = ground (
  arith,
  field_lem 0 32 d refl,
  field_lem 32 1 d refl,
  field_lem 33 1 d refl,
  field_lem 34 1 d refl,
  field_lem 35 4 d refl,
  field_lem 39 8 d refl,
  field_lem 47 8 d refl,
  field_lem 55 4 d refl,
)

pub get_task_word-set_task_word : (t : PackageTask) → IsTask t → get_task_word (set_task_word t) ≡ t
unfolding set_task_word
get_task_word-set_task_word t h = ground (arith, get_task_word_lem (set_task_word t))

-- The five highest bits are not used.
pub set_task_word-get_task_word : (d : ℕ) → set_task_word (get_task_word d) ≡ d % 2 ^ 59
unfolding set_task_word
set_task_word-get_task_word d = ground (arith, get_task_word_lem d)
