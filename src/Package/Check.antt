-- ===== src/Package/Check.antt =====
-- `package_check` with the checks of the three header words. The search for a misplaced
-- signature that follows a failed check only prints, and is left out.
use zxlib.Prelude.{
  ℕ, ◌*◌, ◌≤◌, ◌<◌, ◌≡◌, ◌↔◌, arith, Bool, true, false, ◌&&◌, List, [], ◌∷◌, ltb, leb, ◌==◌,
  if◌then◌else◌,
}
use zxlib.Package.{
  Package, PackageCode, PackageTask, PackageInfo, package_total_length, package_offset_sign,
  package_offset_code, package_offset_task, package_offset_info, package_sign,
}
use zxlib.Package.Code.{IsCode, set_code_word, get_code_word, get_code_word-set_code_word}
use zxlib.Package.Task.{IsTask, set_task_word, get_task_word, get_task_word-set_task_word}
use zxlib.Package.Info.{IsInfo, set_info_word, get_info_word, get_info_word-set_info_word}
use zxlib.Package.Words.{IsPackage, package_set}
use zxlib.UnitCode.Size.{unit_length, unit_total_count}

abbrev pub package_code_sign_data : ℕ
package_code_sign_data = 0

abbrev pub package_code_sign_code : ℕ
package_code_sign_code = 1

abbrev pub package_task_type_file : ℕ
package_task_type_file = 5

abbrev pub package_task_state_error : ℕ
package_task_state_error = 3

unfoldable pub package_check_code : ℕ → Bool
package_check_code d =
    let code = get_code_word d in
    if ltb package_code_sign_code code.sign
    then false
    else if leb unit_total_count code.num
    then false
    else if leb unit_length code.i0
    then false
    else if leb unit_length code.i1
    then false
    else if leb unit_length code.i2
    then false
    else true

unfoldable pub package_check_task : ℕ → Bool
package_check_task d =
    let task = get_task_word d in
    if ltb package_task_type_file task.type
    then false
    else if ltb 8 task.compress
    then false
    else if ltb 8 task.encrypt
    then false
    else if ltb package_task_state_error task.state
    then false
    else true

unfoldable pub package_check_info : ℕ → Bool
package_check_info d = let info = get_info_word d in if ltb info.num info.id then false else true

-- The head of the queue decides; an empty queue has none.
unfoldable pub package_check : List Package → Bool
unfolding package_check_code package_check_task package_check_info
package_check [] = false
package_check (p ∷ q) =
    if p.len == package_total_length * 8
      && p.words package_offset_sign == package_sign
      && package_check_code (p.words package_offset_code)
      && package_check_task (p.words package_offset_task)
      && package_check_info (p.words package_offset_info)
    then true
    else false

pub record IsPlaced (c : PackageCode) : Type 0 where
  pub kind : c.sign ≤ package_code_sign_code
  pub num : c.num < unit_total_count
  pub i0 : c.i0 < unit_length
  pub i1 : c.i1 < unit_length
  pub i2 : c.i2 < unit_length

pub record IsKnown (t : PackageTask) : Type 0 where
  pub type : t.type ≤ package_task_type_file
  pub compress : t.compress ≤ 8
  pub encrypt : t.encrypt ≤ 8
  pub state : t.state ≤ package_task_state_error

package_check_code_iff :
    (c : PackageCode) → IsCode c → (package_check_code (set_code_word c) ≡ true) ↔ IsPlaced c
unfolding package_check_code
package_check_code_iff c h = rw (get_code_word-set_code_word c h) (ground arith)

package_check_task_iff :
    (t : PackageTask) → IsTask t → (package_check_task (set_task_word t) ≡ true) ↔ IsKnown t
unfolding package_check_task
package_check_task_iff t h = rw (get_task_word-set_task_word t h) (ground arith)

package_check_info_iff :
    (i : PackageInfo) → IsInfo i → (package_check_info (set_info_word i) ≡ true) ↔ (i.id ≤ i.num)
unfolding package_check_info
package_check_info_iff i h = rw (get_info_word-set_info_word i h) (ground arith)

-- A complete packet in the words of package.h.
pub record IsComplete (p : Package) : Type 0 where
  pub len : p.len ≡ package_total_length * 8
  pub signed : p.words package_offset_sign ≡ package_sign
  pub placed : IsPlaced p.code
  pub known : IsKnown p.task
  pub order : p.info.id ≤ p.info.num

-- `package_check` accepts a packet whose headers were written by `package_set`, and whose fields
-- fit their bits, exactly when the packet is complete: full length, the signature in its word and
-- every checked field in its range. What stands behind the head of the queue does not matter.
pub package_check-package_set :
    (p : Package) (q : List Package)
    → IsPackage p
    → (package_check (package_set p ∷ q) ≡ true) ↔ IsComplete p
unfolding package_check package_set
package_check-package_set p q h = ground (
  arith,
  package_check_code_iff p.code h.code,
  package_check_task_iff p.task h.task,
  package_check_info_iff p.info h.info,
)
