-- ===== src/Redundancy/Receive.antt =====
-- A packet comes: the receiver takes it in, and restores what it can.
use zxlib.Prelude.{
  ℕ, ◌+◌, ◌<◌, ◌≡◌, ◌≢◌, inl, inr, refl, ap, ◌∙◌, arith, true, false, ltb, ◌==◌, if◌then◌else◌,
  Bool-cases, lt→ltb, some,
}
use zxlib.Prelude.Family.{update}
use zxlib.Package.{Package, package_offset_code}
use zxlib.Package.Words.{package_get_code}
use zxlib.Redundancy.{Redundancy, redundancy_put, redundancy_xor, redundancy_reset}
use zxlib.Redundancy.Parity.{IsSixteen}
use zxlib.Redundancy.Syndrome.{IsSyndrome, IsSyndrome-redundancy_xor, redundancy_xor_frame}
use zxlib.Redundancy.Ends.{redundancy_imple-Restores}
use zxlib.Redundancy.Decode.{redundancy_decode_at, redundancy_decode, redundancy_imple}

get_code_words :
    (p : Package) (w : ℕ) → w < package_offset_code → (package_get_code p).words w ≡ p.words w
unfolding package_get_code
get_code_words p w lt = ground arith

-- The state after the packet is taken in, whatever the counts.
module _ (v : ℕ → Package) (r : Redundancy) (p : Package) (num : ℕ) where
  abbrev marked : Redundancy
  marked = record r { mark = update r.mark num true }

  abbrev taken : (dn cn : ℕ) → Redundancy
  taken dn cn = record (redundancy_xor marked (package_get_code p) num) { dn = dn; cn = cn }

  taken-IsSyndrome :
      (dn cn : ℕ)
      → IsSyndrome v r.mark r.cp
      → num < 16
      → r.mark num ≡ false
      → ((w : ℕ) → w < package_offset_code → p.words w ≡ (v num).words w)
      → IsSyndrome v (taken dn cn).mark (taken dn cn).cp
  taken-IsSyndrome dn cn h lt e same =
      rw (ap (λ (t : Redundancy). t.mark) (redundancy_xor_frame num (package_get_code p) marked)) (
        IsSyndrome-redundancy_xor v r.mark marked (package_get_code p) num h lt e
          (λ w q. get_code_words p w q ∙ same w q))

  decode_at_lem :
      r.id ≡ (package_get_code p).code.id
      → redundancy_decode_at marked p num ≡ (
          if ltb num 11
          then some (
              taken
                ((redundancy_xor marked (package_get_code p) num).dn + 1)
                (redundancy_xor marked (package_get_code p) num).cn)
          else if (redundancy_xor marked (package_get_code p) num).dn == 11
          then some (
              taken
                (redundancy_xor marked (package_get_code p) num).dn
                ((redundancy_xor marked (package_get_code p) num).cn + 1))
          else redundancy_imple (
              taken
                (redundancy_xor marked (package_get_code p) num).dn
                ((redundancy_xor marked (package_get_code p) num).cn + 1)))
  unfolding redundancy_decode_at
  decode_at_lem e = rw (same_id e) refl
    where
      same_id : r.id ≡ (package_get_code p).code.id → (r.id == (package_get_code p).code.id) ≡ true
      same_id e = ground arith

-- What is known after a packet has come.
pub record TakesIn (v : ℕ → Package) (num : ℕ) (t : Redundancy) : Type 0 where
  pub syndrome : IsSyndrome v t.mark t.cp
  pub mark : t.mark num ≡ true

module _ (v : ℕ → Package) (r : Redundancy) (p : Package) (num : ℕ) (code : IsSixteen v)
    (h : IsSyndrome v r.mark r.cp) (lt : num < 16) (e : r.mark num ≡ false)
    (same : (w : ℕ) → w < package_offset_code → p.words w ≡ (v num).words w) where
  taken_mark : (dn cn : ℕ) → (taken v r p num dn cn).mark num ≡ true
  taken_mark dn cn =
      rw
        (ap (λ (t : Redundancy). t.mark)
          (redundancy_xor_frame num (package_get_code p) (marked v r p num)))
        (ground arith)

  taken-TakesIn : (dn cn : ℕ) → TakesIn v num (taken v r p num dn cn)
  taken-TakesIn dn cn = record {
    syndrome = taken-IsSyndrome v r p num dn cn h lt e same;
    mark = taken_mark dn cn;
  }

  imple-TakesIn :
      (dn cn : ℕ)
      → (t : Redundancy) × (redundancy_imple (taken v r p num dn cn) ≡ some t) × TakesIn v num t
  imple-TakesIn dn cn =
      let (t, runs, done) =
        redundancy_imple-Restores v (taken v r p num dn cn) code
          (taken-IsSyndrome v r p num dn cn h lt e same) in
      (t, runs, record { syndrome = done.syndrome; mark = done.mark num (taken_mark dn cn) })

  decode_at-TakesIn :
      r.id ≡ (package_get_code p).code.id
      → (t : Redundancy) × (redundancy_decode_at (marked v r p num) p num ≡ some t)
        × TakesIn v num t
  decode_at-TakesIn i =
      let x = redundancy_xor (marked v r p num) (package_get_code p) num in
      elim (Bool-cases (ltb num 11)) [
        | inl a ↦ (
          taken v r p num (x.dn + 1) x.cn,
          decode_at_lem v r p num i ∙ rw a refl,
          taken-TakesIn _ _,
        )
        | inr a ↦ elim (Bool-cases (x.dn == 11)) [
          | inl b ↦ (
            taken v r p num x.dn (x.cn + 1),
            decode_at_lem v r p num i ∙ rw (a, b) refl,
            taken-TakesIn _ _,
          )
          | inr b ↦
              let (t, runs, done) = imple-TakesIn x.dn (x.cn + 1) in
              (t, decode_at_lem v r p num i ∙ rw (a, b) runs, done)
        ]
      ]

-- A packet of the codeword that the receiver collects, still missing: the round of
-- `redundancy_decode` ends, the packet is marked, and the code packets again sum up the packets
-- that have come or been restored.
pub redundancy_decode-TakesIn :
    (v : ℕ → Package) (r : Redundancy) (p : Package)
    → IsSixteen v
    → IsSyndrome v r.mark r.cp
    → p.code.i0 < 16
    → r.mark p.code.i0 ≡ false
    → r.id ≡ (package_get_code p).code.id
    → ((w : ℕ) → w < package_offset_code → p.words w ≡ (v p.code.i0).words w)
    → (t : Redundancy) × (redundancy_decode r p ≡ some t) × TakesIn v p.code.i0 t
unfolding redundancy_decode redundancy_put package_get_code
redundancy_decode-TakesIn v r p code h lt e i same =
    decode_at-TakesIn v (redundancy_put r (package_get_code (record p { exist = true })))
      (record p { exist = true }) p.code.i0 code h lt e same i

abbrev fresh : Redundancy → Package → Redundancy
fresh r p = record (redundancy_reset r) { id = (package_get_code p).code.id }

decode_at_other :
    (r : Redundancy) (p : Package) (num : ℕ)
    → num < 11
    → r.id ≢ (package_get_code p).code.id
    → redundancy_decode_at r p num
      ≡ some (record (redundancy_xor (fresh r p) (package_get_code p) num) {
        dn = (redundancy_xor (fresh r p) (package_get_code p) num).dn + 1;
      })
unfolding redundancy_decode_at
decode_at_other r p num lt ne = rw (other ne, lt→ltb num 11 lt) refl
  where
    other : r.id ≢ (package_get_code p).code.id → (r.id == (package_get_code p).code.id) ≡ false
    other ne = ground arith

fresh_mark :
    (r : Redundancy) (p : Package) (num : ℕ)
    → (redundancy_xor (fresh r p) (package_get_code p) num).mark num ≡ false
unfolding redundancy_reset
fresh_mark r p num =
    ap (λ (t : Redundancy). t.mark num) (redundancy_xor_frame num (package_get_code p) (fresh r p))

fresh_dn :
    (r : Redundancy) (p : Package) (num : ℕ)
    → (redundancy_xor (fresh r p) (package_get_code p) num).dn ≡ 0
unfolding redundancy_reset
fresh_dn r p num =
    ap (λ (t : Redundancy). t.dn) (redundancy_xor_frame num (package_get_code p) (fresh r p))

-- A data packet of another unit is counted, but its mark is cleared after it has been set: when the
-- round ends the receiver takes the packet for missing although it has come.
pub redundancy_decode-other_unit :
    (r : Redundancy) (p : Package)
    → p.code.i0 < 11
    → r.id ≢ (package_get_code p).code.id
    → (t : Redundancy) × (redundancy_decode r p ≡ some t) × (t.dn ≡ 1) × (t.mark p.code.i0 ≡ false)
unfolding redundancy_decode redundancy_put package_get_code
redundancy_decode-other_unit r p lt ne =
    let q : Package = record p { exist = true } in
    let s : Redundancy = record (redundancy_put r (package_get_code q)) {
      mark = update r.mark p.code.i0 true;
    } in
    (
      _,
      decode_at_other s q p.code.i0 lt ne,
      ap (λ (n : ℕ). n + 1) (fresh_dn s q p.code.i0) ∙ omega arith,
      fresh_mark s q p.code.i0,
    )
