-- ===== src/UnitCode/Repairs.antt =====
-- One repair: the only lost packet of a line becomes the parity of the line. Whatever the order
-- of the repairs, they never touch a packet that is there, and each leaves fewer lost packets.
use zxlib.Prelude.{ℕ, ◌<◌, ◌≤◌, ◌≡◌, ◌≢◌, refl, ◌∙◌, arith, Bool, true, false, if◌then◌else◌}
use zxlib.Prelude.Loop.{sum_range, sum_range_mono, sum_range_lt}
use zxlib.Prelude.Family.{xor_range_recover}
use zxlib.Package.{Package, package_offset_code}
use zxlib.UnitCode.{parity, repair}
use zxlib.UnitCode.Cell.{PackageUnit, Axis, along_k, along_i, along_j, cell}
use zxlib.UnitCode.Encode.{IsCodeword, parity_word}

abbrev pub IsLost : PackageUnit → Axis → (a b c : ℕ) → Type 0
IsLost u d a b c = (cell u d a b c).exist ≡ false

abbrev pub IsThere : PackageUnit → Axis → (a b c : ℕ) → Type 0
IsThere u d a b c = (cell u d a b c).exist ≡ true

pub data Repair : PackageUnit → PackageUnit → Type 0 where
  fix :
      (u : PackageUnit) (d : Axis) (a b c : ℕ)
      → a < 8
      → b < 8
      → c < 8
      → IsLost u d a b c
      → ((e : ℕ) → e < 8 → e ≢ c → IsThere u d a b e)
      → Repair u (repair u d a b c)

-- Any number of repairs.
pub data Repairs (u : PackageUnit) : PackageUnit → Type 0 where
  here : Repairs u u
  next : {s t : PackageUnit} → Repairs u s → Repair s t → Repairs u t

pub Repairs-trans : {u s t : PackageUnit} → Repairs u s → Repairs s t → Repairs u t
Repairs-trans r here = r
Repairs-trans r (next q st) = next (Repairs-trans r q) st

abbrev pub lost : Package → ℕ
lost p = if p.exist then 0 else 1

-- The number of lost packets of a unit.
unfoldable pub count_lost : PackageUnit → ℕ
unfolding sum_range
count_lost u = sum_range 8 (λ i. sum_range 8 (λ j. sum_range 8 (λ k. lost (u i j k))))

module _ (u : PackageUnit) (d : Axis) (a b c : ℕ) where
  lost-repair : (i j k : ℕ) → lost (repair u d a b c i j k) ≤ lost (u i j k)
  unfolding repair
  lost-repair i j k = by_axis d
    where
      by_axis : (d : Axis) → lost (repair u d a b c i j k) ≤ lost (u i j k)
      by_axis along_k = ground arith
      by_axis along_i = ground arith
      by_axis along_j = ground arith

count_lost-lt :
    (u t : PackageUnit) (i j k : ℕ)
    → i < 8
    → j < 8
    → k < 8
    → ((i j k : ℕ) → lost (t i j k) ≤ lost (u i j k))
    → lost (t i j k) < lost (u i j k)
    → count_lost t < count_lost u
unfolding count_lost
count_lost-lt u t i j k p q r le lt =
    sum_range_lt 8 i (λ i. sum_range 8 (λ j. sum_range 8 (λ k. lost (t i j k)))) _ p
      (λ i _. sum_range_mono 8 _ _ (λ j _. sum_range_mono 8 _ _ (λ k _. le i j k)))
      (sum_range_lt 8 j (λ j. sum_range 8 (λ k. lost (t i j k))) _ q
        (λ j _. sum_range_mono 8 _ _ (λ k _. le i j k))
        (sum_range_lt 8 k (λ k. lost (t i j k)) _ r (λ k _. le i j k) lt))

pub Repair-count_lost : {u t : PackageUnit} → Repair u t → count_lost t < count_lost u
unfolding repair
Repair-count_lost (fix u along_k a b c p q r l o) =
    count_lost-lt u (repair u along_k a b c) a b c p q r (lost-repair u along_k a b c)
      (ground arith)
Repair-count_lost (fix u along_i a b c p q r l o) =
    count_lost-lt u (repair u along_i a b c) c a b r p q (lost-repair u along_i a b c)
      (ground arith)
Repair-count_lost (fix u along_j a b c p q r l o) =
    count_lost-lt u (repair u along_j a b c) b c a q r p (lost-repair u along_j a b c)
      (ground arith)

pub Repairs-count_lost : {u t : PackageUnit} → Repairs u t → count_lost t ≤ count_lost u
Repairs-count_lost here = omega arith
Repairs-count_lost (next r st) = omega (arith, Repairs-count_lost r, Repair-count_lost st)

-- A packet that is there stays as it is.
Repair-keeps :
    {u t : PackageUnit} (i j k : ℕ) → Repair u t → (u i j k).exist ≡ true → t i j k ≡ u i j k
unfolding repair
Repair-keeps i j k (fix u along_k a b c p q r l o) h = ground arith
Repair-keeps i j k (fix u along_i a b c p q r l o) h = ground arith
Repair-keeps i j k (fix u along_j a b c p q r l o) h = ground arith

pub Repairs-keeps :
    {u t : PackageUnit} (i j k : ℕ) → Repairs u t → (u i j k).exist ≡ true → t i j k ≡ u i j k
Repairs-keeps i j k here h = refl
Repairs-keeps i j k (next r st) h = ground (arith, Repairs-keeps i j k r h, Repair-keeps i j k st)

-- `q` is what was received of `p`: the coded words of `p` if the packet is there, blanks if not.
pub record IsReceived (p q : Package) : Type 0 where
  pub there : q.exist ≡ true → (w : ℕ) → w < package_offset_code → q.words w ≡ p.words w
  pub blank : q.exist ≡ false → (w : ℕ) → w < package_offset_code → q.words w ≡ 0

abbrev pub IsReceivedUnit : PackageUnit → PackageUnit → Type 0
IsReceivedUnit v u = (i j k : ℕ) → i < 8 → j < 8 → k < 8 → IsReceived (v i j k) (u i j k)

IsReceived-cell :
    {v u : PackageUnit} (d : Axis) (a b c : ℕ)
    → IsReceivedUnit v u
    → a < 8
    → b < 8
    → c < 8
    → IsReceived (cell v d a b c) (cell u d a b c)
IsReceived-cell along_k a b c h p q r = h a b c p q r
IsReceived-cell along_i a b c h p q r = h c a b r p q
IsReceived-cell along_j a b c h p q r = h b c a q r p

-- The parity of a line with one loss is what was sent there.
parity_recovers :
    (v u : PackageUnit) (d : Axis) (a b c w : ℕ)
    → IsCodeword v
    → IsReceivedUnit v u
    → a < 8
    → b < 8
    → c < 8
    → IsLost u d a b c
    → ((e : ℕ) → e < 8 → e ≢ c → IsThere u d a b e)
    → w < package_offset_code
    → (parity u d a b c).words w ≡ (cell v d a b c).words w
parity_recovers v u d a b c w code h p q r l o lt =
    parity_word u d a b c w lt
    ∙ xor_range_recover 8 c (λ e. (cell u d a b e).words w) (λ e. (cell v d a b e).words w) r
        (λ e s ne. (IsReceived-cell d a b e h p q s).there (o e s ne) w lt)
        ((IsReceived-cell d a b c h p q r).blank l w lt) (code d a b w p q lt)

-- The cell `(x, y, z)` of the sent unit is the target of a repair, or stays as it was received.
repaired-IsReceived :
    (p q r : Package) (hit : Bool)
    → IsReceived p q
    → (hit ≡ true → (w : ℕ) → w < package_offset_code → r.words w ≡ p.words w)
    → IsReceived p (if hit then record r { exist = true } else q)
repaired-IsReceived p q r true h e = record { there = λ _. e refl; blank = λ f. absurd (cc f) }
repaired-IsReceived p q r false h e = h

Repair-IsReceived :
    {u t : PackageUnit} (v : PackageUnit)
    → IsCodeword v
    → Repair u t
    → IsReceivedUnit v u
    → IsReceivedUnit v t
unfolding repair
Repair-IsReceived v code (fix u along_k a b c p q r l o) h i j k x y z =
    repaired-IsReceived (v i j k) (u i j k) (parity u along_k a b c) _ (h i j k x y z)
      λ e w lt. ground (arith, parity_recovers v u along_k a b c w code h p q r l o lt)
Repair-IsReceived v code (fix u along_i a b c p q r l o) h i j k x y z =
    repaired-IsReceived (v i j k) (u i j k) (parity u along_i a b c) _ (h i j k x y z)
      λ e w lt. ground (arith, parity_recovers v u along_i a b c w code h p q r l o lt)
Repair-IsReceived v code (fix u along_j a b c p q r l o) h i j k x y z =
    repaired-IsReceived (v i j k) (u i j k) (parity u along_j a b c) _ (h i j k x y z)
      λ e w lt. ground (arith, parity_recovers v u along_j a b c w code h p q r l o lt)

-- Repairs of what was received of a codeword only ever put back what was sent.
pub Repairs-IsReceived :
    {u t : PackageUnit} (v : PackageUnit)
    → IsCodeword v
    → Repairs u t
    → IsReceivedUnit v u
    → IsReceivedUnit v t
Repairs-IsReceived v code here h = h
Repairs-IsReceived v code (next r st) h =
    Repair-IsReceived v code st (Repairs-IsReceived v code r h)
