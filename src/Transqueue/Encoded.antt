-- ===== src/Transqueue/Encoded.antt =====
-- The unit that the sender encodes on the last data packet.
use zxlib.Prelude.{ℕ, ◌+◌, ◌<◌, ◌≡◌, refl, ap, ◌∙◌, arith}
use zxlib.Package.{Package, package_offset_code}
use zxlib.Package.Check.{package_code_sign_data}
use zxlib.UnitCode.{unit_encode}
use zxlib.UnitCode.Cell.{PackageUnit, store}
use zxlib.UnitCode.Encode.{unit_encode_frame}
use zxlib.Transqueue.Send.{Sender, set_place, send_data}
use zxlib.Transqueue.Wire.{set_place_word}

-- The unit with `p` as its last data packet, encoded.
abbrev pub encoded_with : Sender → Package → PackageUnit
encoded_with s p = unit_encode (store s.u 6 6 6 (set_place p s.id package_code_sign_data 342 6 6 6))

-- The other data cells are those of the unit before.
pub encoded_with-other :
    (s : Sender) (p : Package) (i j k : ℕ)
    → i < 7
    → j < 7
    → k < 7
    → i + j + k < 18
    → encoded_with s p i j k ≡ s.u i j k
encoded_with-other s p i j k a b c d = unit_encode_frame _ i j k a b c ∙ ground arith

-- The last data cell has the words of `p`, up to the code word.
pub encoded_with-last :
    (s : Sender) (p : Package) (w : ℕ)
    → w < package_offset_code
    → (encoded_with s p 6 6 6).words w ≡ p.words w
encoded_with-last s p w h =
    ap (λ (q : Package). q.words w)
      (unit_encode_frame (store s.u 6 6 6 (set_place p s.id package_code_sign_data 342 6 6 6)) 6 6 6
        (omega arith) (omega arith) (omega arith))
    ∙ set_place_word p s.id package_code_sign_data 342 6 6 6 w h

pub send_data-last :
    (s : Sender) (p : Package) → s.number ≡ 342 → unit_encode (send_data s p).u ≡ encoded_with s p
unfolding send_data
send_data-last s p e = rw e refl
