-- ===== src/Package/Words.antt =====
-- The header words in the packet: `package_malloc`, `package_reset`, `package_copy`, `package_get`
-- and `package_set` with the functions that they call.
use zxlib.Prelude.{ℕ, ◌<◌, ◌≡◌, ◌≢◌, refl, arith, true, false, ltb, if◌then◌else◌}
use zxlib.Prelude.Family.{update}
use zxlib.Package.{
  Package, PackageCode, PackageTask, package_total_length, package_length, package_offset_sign,
  package_offset_code, package_offset_task, package_offset_info, package_sign,
}
use zxlib.Package.Code.{IsCode, get_code_word, set_code_word, get_code_word-set_code_word}
use zxlib.Package.Task.{IsTask, get_task_word, set_task_word, get_task_word-set_task_word}
use zxlib.Package.Info.{IsInfo, get_info_word, set_info_word, get_info_word-set_info_word}

abbrev pub zero_code : PackageCode
zero_code = record { id = 0; sign = 0; num = 0; i0 = 0; i1 = 0; i2 = 0 }

abbrev pub zero_task : PackageTask
zero_task = record {
  id = 0;
  empty = 0;
  cache = 0;
  retrans = 0;
  type = 0;
  compress = 0;
  encrypt = 0;
  state = 0;
}

-- `memset(p, 0, sizeof(package))`, and what `lib_calloc` returns.
unfoldable pub package_reset : Package → Package
package_reset p = record {
  exist = false;
  code = zero_code;
  task = zero_task;
  info = record { id = 0; num = 0 };
  words = λ i. 0;
  len = 0;
}

unfoldable pub package_malloc : Package
package_malloc = record {
  exist = false;
  code = zero_code;
  task = zero_task;
  info = record { id = 0; num = 0 };
  words = λ i. 0;
  len = 0;
}

unfoldable pub package_copy : Package → Package → Package
package_copy p1 p2 = record p1 {
  words = λ i. if ltb i package_total_length then p2.words i else p1.words i;
}

unfoldable pub package_get_code : Package → Package
package_get_code p = record p {
  code = get_code_word (p.words package_offset_code);
  exist = true;
  words = update p.words package_offset_sign package_sign;
}

unfoldable pub package_set_code : Package → Package
package_set_code p = record p { words = update p.words package_offset_code (set_code_word p.code) }

unfoldable pub package_get_task : Package → Package
package_get_task p = record p { task = get_task_word (p.words package_offset_task) }

unfoldable pub package_set_task : Package → Package
package_set_task p = record p { words = update p.words package_offset_task (set_task_word p.task) }

unfoldable pub package_get_info : Package → Package
package_get_info p = record p { info = get_info_word (p.words package_offset_info) }

unfoldable pub package_set_info : Package → Package
package_set_info p = record p { words = update p.words package_offset_info (set_info_word p.info) }

unfoldable pub package_get : Package → Package
unfolding package_get_code package_get_task package_get_info
package_get p = package_get_info (package_get_task (package_get_code p))

unfoldable pub package_set : Package → Package
unfolding package_set_code package_set_task package_set_info
package_set p = package_set_code (package_set_task (package_set_info p))

pub record IsPackage (p : Package) : Type 0 where
  pub code : IsCode p.code
  pub task : IsTask p.task
  pub info : IsInfo p.info

-- What `package_get` reads from a packet on which `package_set` has written its headers.
pub record IsReadBack (p q : Package) : Type 0 where
  pub code : q.code ≡ p.code
  pub task : q.task ≡ p.task
  pub info : q.info ≡ p.info
  pub exist : q.exist ≡ true
  pub sign : q.words package_offset_sign ≡ package_sign
  pub payload : (i : ℕ) → i < package_length → q.words i ≡ p.words i
  pub len : q.len ≡ p.len

-- A packet whose header fields fit their bits is read back as it was set: `package_get` after
-- `package_set` gives the same code, task and info, marks the packet as present, puts the
-- signature in its word and leaves the payload and the length alone.
pub package_get-package_set :
    (p : Package) → IsPackage p → IsReadBack p (package_get (package_set p))
unfolding package_get package_set
package_get-package_set p h = record {
  code = get_code_word-set_code_word p.code h.code;
  task = get_task_word-set_task_word p.task h.task;
  info = get_info_word-set_info_word p.info h.info;
  exist = refl;
  sign = refl;
  payload = λ i q. ground arith;
  len = refl;
}

-- `package_set` writes the code, task and info words and no other word; the signature word is
-- among those that it leaves as they were.
pub package_set_frame :
    (p : Package) (i : ℕ)
    → i ≢ package_offset_code
    → i ≢ package_offset_task
    → i ≢ package_offset_info
    → (package_set p).words i ≡ p.words i
unfolding package_set
package_set_frame p i a b c = ground arith
