-- ===== src/Package.antt =====
-- package.h and package.c: the fixed-size packet of the library, its three header words and its
-- payload of 64-bit words.
pub mod Code
pub mod Task
pub mod Info
pub mod Words
pub mod Check
pub mod Xor
pub mod Stack
mod Tests
use zxlib.Prelude.{ℕ, ◌+◌, ◌-◌, ◌*◌, Bool}

abbrev pub head_sign : ℕ
head_sign = 1

abbrev pub head_code : ℕ
head_code = 1

abbrev pub head_task : ℕ
head_task = 1

abbrev pub head_info : ℕ
head_info = 1

abbrev pub package_length : ℕ
package_length = 4096

abbrev pub package_size : ℕ
package_size = package_length * 8

abbrev pub package_total_length : ℕ
package_total_length = package_length + head_info + head_task + head_code + head_sign

abbrev pub package_offset_sign : ℕ
package_offset_sign = package_length + head_info + head_task + head_code + head_sign - 1

abbrev pub package_offset_code : ℕ
package_offset_code = package_length + head_info + head_task + head_code - 1

abbrev pub package_offset_task : ℕ
package_offset_task = package_length + head_info + head_task - 1

abbrev pub package_offset_info : ℕ
package_offset_info = package_length + head_info - 1

abbrev pub package_sign : ℕ
package_sign = 0x135702469bdf8ace

-- `package_code`: the coding unit, the kind of packet, its place in the order of sending and its
-- coordinates in the unit.
pub record PackageCode : Type 0 where
  pub id : ℕ
  pub sign : ℕ
  pub num : ℕ
  pub i0 : ℕ
  pub i1 : ℕ
  pub i2 : ℕ

-- `package_task`
pub record PackageTask : Type 0 where
  pub id : ℕ
  pub empty : ℕ
  pub cache : ℕ
  pub retrans : ℕ
  pub type : ℕ
  pub compress : ℕ
  pub encrypt : ℕ
  pub state : ℕ

-- `package_info`
pub record PackageInfo : Type 0 where
  pub id : ℕ
  pub num : ℕ

-- `package`. The array `data` is a function of the index; the code reads and writes it only below
-- `package_total_length`.
pub record Package : Type 0 where
  pub exist : Bool
  pub code : PackageCode
  pub task : PackageTask
  pub info : PackageInfo
  pub words : ℕ → ℕ
  pub len : ℕ
