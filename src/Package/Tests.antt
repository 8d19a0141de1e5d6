-- ===== src/Package/Tests.antt =====
-- Runs of the packet functions on one packet.
use zxlib.Prelude.{◌+◌, ◌*◌, ◌^◌, ◌≡◌, ◌↔◌, refl, arith, true, [], ◌∷◌, ◌==◌, if◌then◌else◌}
use zxlib.Package.{
  Package, PackageCode, PackageTask, package_total_length, package_offset_sign, package_sign,
}
use zxlib.Package.Code.{set_code_word}
use zxlib.Package.Words.{package_get, package_set, IsPackage, IsReadBack, package_get-package_set}
use zxlib.Package.Check.{package_check, IsComplete, package_check-package_set}

-- Packet 8 of the data of coding unit 3, at its place (0, 1, 1).
abbrev sample_code : PackageCode
sample_code = record { id = 3; sign = 0; num = 8; i0 = 0; i1 = 1; i2 = 1 }

abbrev sample_task : PackageTask
sample_task = record {
  id = 7;
  empty = 0;
  cache = 0;
  retrans = 1;
  type = 1;
  compress = 2;
  encrypt = 0;
  state = 1;
}

abbrev sample : Package
sample = record {
  exist = true;
  code = sample_code;
  task = sample_task;
  info = record { id = 8; num = 343 };
  words = λ i. if i == package_offset_sign then package_sign else i;
  len = package_total_length * 8;
}

sample-IsPackage : IsPackage sample
sample-IsPackage = record {
  code = record {
    id = omega arith;
    sign = omega arith;
    num = omega arith;
    i0 = omega arith;
    i1 = omega arith;
    i2 = omega arith;
  };
  task = record {
    id = omega arith;
    empty = omega arith;
    cache = omega arith;
    retrans = omega arith;
    type = omega arith;
    compress = omega arith;
    encrypt = omega arith;
    state = omega arith;
  };
  info = record { id = omega arith; num = omega arith };
}

test-set_code_word : set_code_word sample_code ≡ 3 + 8 * 2 ^ 36 + 2 ^ 56 + 2 ^ 60
unfolding set_code_word
test-set_code_word = refl

package_get-package_set_example : IsReadBack sample (package_get (package_set sample))
package_get-package_set_example = package_get-package_set sample sample-IsPackage

package_check-package_set_example :
    (package_check (package_set sample ∷ []) ≡ true) ↔ IsComplete sample
package_check-package_set_example = package_check-package_set sample [] sample-IsPackage
