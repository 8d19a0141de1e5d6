-- ===== src/Package/Xor.antt =====
-- `package_xor2` to `package_xor8`: the words before the code word are combined, the others stay.
use zxlib.Prelude.{ℕ, ◌<◌, ◌≡◌, arith, bit_xor, ltb, if◌then◌else◌}
use zxlib.Prelude.Family.{xor_range}
use zxlib.Prelude.Xor.{zero-xor}
use zxlib.Package.{Package, package_offset_code}

-- `for(i = 0; i < PACKAGE_OFFSET_CODE; i++) p0->data[i] = f(i)`. Each round reads and writes the
-- words of index `i` only, so the target may be one of the sources.
abbrev xor_loop : Package → (ℕ → ℕ) → Package
xor_loop p0 f = record p0 { words = λ i. if ltb i package_offset_code then f i else p0.words i }

unfoldable pub package_xor2 : Package → Package → Package → Package
package_xor2 p0 p1 p2 = xor_loop p0 (λ i. bit_xor (p1.words i) (p2.words i))

unfoldable pub package_xor3 : Package → (p1 p2 p3 : Package) → Package
package_xor3 p0 p1 p2 p3 =
    xor_loop p0 (λ i. bit_xor (bit_xor (p1.words i) (p2.words i)) (p3.words i))

unfoldable pub package_xor4 : Package → (p1 p2 p3 p4 : Package) → Package
package_xor4 p0 p1 p2 p3 p4 =
    xor_loop p0
      (λ i. bit_xor (bit_xor (bit_xor (p1.words i) (p2.words i)) (p3.words i)) (p4.words i))

unfoldable pub package_xor5 : Package → (p1 p2 p3 p4 p5 : Package) → Package
package_xor5 p0 p1 p2 p3 p4 p5 = xor_loop p0 λ i.
    bit_xor (bit_xor (bit_xor (bit_xor (p1.words i) (p2.words i)) (p3.words i)) (p4.words i))
      (p5.words i)

unfoldable pub package_xor6 : Package → (p1 p2 p3 p4 p5 p6 : Package) → Package
package_xor6 p0 p1 p2 p3 p4 p5 p6 = xor_loop p0 λ i.
    bit_xor
      (bit_xor (bit_xor (bit_xor (bit_xor (p1.words i) (p2.words i)) (p3.words i)) (p4.words i))
        (p5.words i))
      (p6.words i)

unfoldable pub package_xor7 : Package → (p1 p2 p3 p4 p5 p6 p7 : Package) → Package
package_xor7 p0 p1 p2 p3 p4 p5 p6 p7 = xor_loop p0 λ i.
    bit_xor
      (bit_xor
        (bit_xor (bit_xor (bit_xor (bit_xor (p1.words i) (p2.words i)) (p3.words i)) (p4.words i))
          (p5.words i))
        (p6.words i))
      (p7.words i)

unfoldable pub package_xor8 : Package → (p1 p2 p3 p4 p5 p6 p7 p8 : Package) → Package
package_xor8 p0 p1 p2 p3 p4 p5 p6 p7 p8 = xor_loop p0 λ i.
    bit_xor
      (bit_xor
        (bit_xor
          (bit_xor (bit_xor (bit_xor (bit_xor (p1.words i) (p2.words i)) (p3.words i)) (p4.words i))
            (p5.words i))
          (p6.words i))
        (p7.words i))
      (p8.words i)

-- One coded word: the exclusive or of the sources.
pub package_xor8_word :
    (p0 : Package) (f : ℕ → Package) (i : ℕ)
    → i < package_offset_code
    → (package_xor8 p0 (f 0) (f 1) (f 2) (f 3) (f 4) (f 5) (f 6) (f 7)).words i
      ≡ xor_range 8 (λ c. (f c).words i)
unfolding package_xor8 xor_range
package_xor8_word p0 f i h = ground (arith, zero-xor ((f 0).words i))
