-- ===== src/Redundancy.antt =====
-- redundancy.h and redundancy.c: eleven packets are protected by five more. Row `j` of the table
-- tells which of the five take packet `j` in.
pub mod Table
pub mod Encode
pub mod Decode
pub mod Parity
pub mod Syndrome
pub mod Lost
pub mod Round
pub mod Imple
pub mod Ends
pub mod Receive
pub mod Codes
mod Tests
use zxlib.Prelude.{
  ℕ, ◌+◌, ◌-◌, ◌*◌, ◌%◌, ◌^◌, Bool, true, false, List, [], ◌∷◌, ◌++◌, ◌==◌, if◌then◌else◌,
}
use zxlib.Prelude.Family.{update}
use zxlib.Prelude.Loop.{for_up}
use zxlib.Package.{Package, PackageCode}
use zxlib.Package.Words.{package_malloc, package_copy, package_set_code}
use zxlib.Package.Xor.{package_xor2}
use zxlib.Package.Stack.{PackageStack, package_stack_init, package_stack_push, package_stack_xor}
use Table.{redundancy_table}

abbrev pub redundancy_length_data : ℕ
redundancy_length_data = 11

abbrev pub redundancy_length_code : ℕ
redundancy_length_code = 5

abbrev pub redundancy_length : ℕ
redundancy_length = redundancy_length_data + redundancy_length_code

abbrev pub redundancy_step : ℕ
redundancy_step = 2 ^ 60

-- `redundancy`. The list of packets that wait is in the order of `list_get`.
pub record Redundancy : Type 0 where
  pub id : ℕ
  pub dn : ℕ
  pub cn : ℕ
  pub dp : ℕ → Package
  pub cp : ℕ → Package
  pub mark : ℕ → Bool
  pub list : List Package
  pub n : ℕ
  pub i : ℕ
  pub ps : PackageStack

-- `id` stays below the next multiple of the step: several units of work share the numbers.
unfoldable pub redundancy_reset : Redundancy → Redundancy
redundancy_reset r =
    let id = (r.id + 1) % 2 ^ 64 in
    record r {
      id = if id % redundancy_step == 0 then (id + (2 ^ 64 - redundancy_step)) % 2 ^ 64 else id;
      dn = 0;
      cn = 0;
      mark = λ j. false;
    }

unfoldable pub redundancy_put : Redundancy → Package → Redundancy
redundancy_put r p = record r { list = r.list ++ record p { exist = true } ∷ [] }

-- `p->code.i[a] = v`
abbrev pub set_i : PackageCode → (a v : ℕ) → PackageCode
set_i c a v =
    if a == 0
    then record c { i0 = v }
    else if a == 1
    then record c { i1 = v }
    else record c { i2 = v }

-- The body of the outer loop of `redundancy_stack_xor`.
unfoldable pub stack_column : (i : ℕ) → (ℕ → Package) → PackageStack → PackageStack
stack_column i dp =
    for_up redundancy_length_data
      (λ j ps. if redundancy_table j i then package_stack_push ps (dp j) else ps)

unfoldable pub stack_xor_one : (i : ℕ) → Redundancy → Redundancy
stack_xor_one i r =
    let (ps, c) = package_stack_xor (stack_column i r.dp r.ps) (r.cp i) in
    record r { ps = ps; cp = update r.cp i c }

unfoldable pub redundancy_stack_xor : Redundancy → Redundancy
redundancy_stack_xor = for_up redundancy_length_code stack_xor_one

-- One round of the loop of `redundancy_xor`; the code calls it with no exception.
unfoldable pub xor_one : Package → (num i : ℕ) → Redundancy → Redundancy
xor_one p num i r =
    if redundancy_table num i
    then record r { cp = update r.cp i (package_xor2 (r.cp i) (r.cp i) p) }
    else r

unfoldable pub redundancy_xor : Redundancy → Package → (num : ℕ) → Redundancy
redundancy_xor r p num = for_up redundancy_length_code (xor_one p num) r
