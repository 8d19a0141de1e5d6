-- ===== src/Package/Stack.antt =====
-- `package_stack`: up to sixteen packets are collected and combined by one call.
use zxlib.Prelude.{ℕ, ◌+◌, ◌%◌, ◌≤◌, ◌<◌, ◌≡◌, arith, ◌==◌, if◌then◌else◌}
use zxlib.Prelude.Family.{update, xor_range}
use zxlib.Prelude.Xor.{zero-xor}
use zxlib.Package.{Package, package_offset_code}
use zxlib.Package.Words.{package_malloc}
use zxlib.Package.Xor.{
  package_xor2, package_xor3, package_xor4, package_xor5, package_xor6, package_xor7, package_xor8,
}

pub record PackageStack : Type 0 where
  pub pl : ℕ → Package
  pub num : ℕ

-- `lib_calloc` of sixteen NULL pointers; `package_stack_xor` reads only what was pushed.
unfoldable pub package_stack_init : PackageStack
package_stack_init = record { pl = λ i. package_malloc; num = 0 }

unfoldable pub package_stack_push : PackageStack → Package → PackageStack
package_stack_push ps p = record ps { pl = update ps.pl ps.num p; num = (ps.num + 1) % 16 }

xor_pushed : (ℕ → Package) → ℕ → Package → Package
unfolding package_xor2 package_xor3 package_xor4 package_xor5 package_xor6 package_xor7 package_xor8
xor_pushed pl num p =
    if num == 2
    then package_xor2 p (pl 0) (pl 1)
    else if num == 3
    then package_xor3 p (pl 0) (pl 1) (pl 2)
    else if num == 4
    then package_xor4 p (pl 0) (pl 1) (pl 2) (pl 3)
    else if num == 5
    then package_xor5 p (pl 0) (pl 1) (pl 2) (pl 3) (pl 4)
    else if num == 6
    then package_xor6 p (pl 0) (pl 1) (pl 2) (pl 3) (pl 4) (pl 5)
    else if num == 7
    then package_xor7 p (pl 0) (pl 1) (pl 2) (pl 3) (pl 4) (pl 5) (pl 6)
    else if num == 8
    then package_xor8 p (pl 0) (pl 1) (pl 2) (pl 3) (pl 4) (pl 5) (pl 6) (pl 7)
    else p

unfoldable pub package_stack_xor : PackageStack → Package → PackageStack × Package
unfolding xor_pushed
package_stack_xor ps p = (record ps { num = 0 }, xor_pushed ps.pl ps.num p)

-- With two to eight packets on the stack, every word before the code word becomes the exclusive
-- or of theirs.
pub package_stack_xor-xor_range :
    (ps : PackageStack) (p : Package) (i : ℕ)
    → 2 ≤ ps.num
    → ps.num ≤ 8
    → i < package_offset_code
    → (package_stack_xor ps p).1.words i ≡ xor_range ps.num (λ j. (ps.pl j).words i)
unfolding package_stack_xor xor_range
package_stack_xor-xor_range ps p i a b c = ground (arith, zero-xor ((ps.pl 0).words i))
