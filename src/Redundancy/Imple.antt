-- ===== src/Redundancy/Imple.antt =====
-- The loop of `redundancy_imple`: it ends, and it puts in the list only packets that were sent.
use zxlib.Prelude.{
  ℕ, ◌+◌, ◌%◌, ◌<◌, ◌≡◌, refl, ap, sym, ◌∙◌, arith, Bool, true, ◌==◌, if◌then◌else◌, List, [], ◌∷◌,
  ◌++◌, append_assoc, All, all_more,
}
use zxlib.Prelude.Family.{update}
use zxlib.Package.{Package, PackageCode, package_offset_code}
use zxlib.Package.Words.{package_set_code}
use zxlib.Redundancy.{Redundancy, redundancy_put, set_i, redundancy_xor}
use zxlib.Redundancy.Syndrome.{IsSyndrome, redundancy_xor_frame, IsSyndrome-redundancy_xor}
use zxlib.Redundancy.Round.{IsFound}
use zxlib.Redundancy.Decode.{redundancy_restore}

-- `p->code.i[a]`
abbrev pub get_i : PackageCode → (a : ℕ) → ℕ
get_i c a = if a == 0 then c.i0 else if a == 1 then c.i1 else c.i2

-- The packet `q` is one of the sixteen of `v`, and its code tells which.
pub record IsRestored (v : ℕ → Package) (n : ℕ) (q : Package) : Type 0 where
  pub place : get_i q.code ((1 + n) % 2) < 16
  pub words :
      (w : ℕ) → w < package_offset_code → q.words w ≡ (v (get_i q.code ((1 + n) % 2))).words w
  pub exist : q.exist ≡ true

abbrev pub restored_packet : Redundancy → Package → (k : ℕ) → Package
restored_packet r p k =
    let c = set_i (record p.code { id = r.id }) r.n r.i in
    record (package_set_code (record p { code = set_i c ((1 + r.n) % 2) k })) { exist = true }

get_i-set_i : (c : PackageCode) (a k : ℕ) → get_i (set_i c a k) a ≡ k
get_i-set_i c a k = ground arith

restored_packet-IsRestored :
    (v : ℕ → Package) (mark : ℕ → Bool) (r : Redundancy) (p : Package) (k : ℕ)
    → IsFound v mark p k
    → IsRestored v r.n (restored_packet r p k)
unfolding package_set_code
restored_packet-IsRestored v mark r p k f =
    let at : get_i (restored_packet r p k).code ((1 + r.n) % 2) ≡ k =
      get_i-set_i (set_i (record p.code { id = r.id }) r.n r.i) ((1 + r.n) % 2) k in
    record {
      place = omega (arith, f.place, at);
      words = λ w lt. coded w lt ∙ f.words w lt ∙ ap (λ (k : ℕ). (v k).words w) (sym at);
      exist = refl;
    }
  where
    coded : (w : ℕ) → w < package_offset_code → (restored_packet r p k).words w ≡ p.words w
    coded w lt = ground arith

-- What the restoring of packet `k` does to the state.
pub record IsStep (r : Redundancy) (p : Package) (k : ℕ) (t : Redundancy) : Type 0 where
  pub mark : t.mark ≡ update r.mark k true
  pub cp : t.cp ≡ (redundancy_xor r p k).cp
  pub list : t.list ≡ r.list ++ restored_packet r p k ∷ []
  pub n : t.n ≡ r.n

pub redundancy_restore-IsStep :
    (r : Redundancy) (p : Package) (k : ℕ) → IsStep r p k (redundancy_restore r p k)
unfolding redundancy_restore redundancy_put
redundancy_restore-IsStep r p k =
    let e = redundancy_xor_frame k p r in
    record {
      mark = ap (λ (t : Redundancy). update t.mark k true) e;
      cp = refl;
      list = ap (λ (t : Redundancy). t.list ++ restored_packet t p k ∷ []) e;
      n = ap (λ (t : Redundancy). t.n) e;
    }

-- What the loop has done so far.
pub record Restores (v : ℕ → Package) (r t : Redundancy) : Type 0 where
  pub syndrome : IsSyndrome v t.mark t.cp
  pub more : List Package
  pub list : t.list ≡ r.list ++ more
  pub sent : All (IsRestored v r.n) more
  pub mark : (j : ℕ) → r.mark j ≡ true → t.mark j ≡ true

pub step-Restores :
    (v : ℕ → Package) (r s t : Redundancy) (p : Package) (k : ℕ)
    → IsFound v r.mark p k
    → IsStep r p k s
    → Restores v s t
    → Restores v r t
step-Restores v r s t p k f st h = record {
  syndrome = h.syndrome;
  more = restored_packet r p k ∷ h.more;
  list =
      h.list
      ∙ ap (λ l. l ++ h.more) st.list
      ∙ append_assoc r.list (restored_packet r p k ∷ []) h.more;
  sent = all_more (restored_packet-IsRestored v r.mark r p k f) (rw st.n at h.sent);
  mark = λ j e. h.mark j (ground (arith, e, ap (λ (m : ℕ → Bool). m j) st.mark));
}

pub step-IsSyndrome :
    (v : ℕ → Package) (r s : Redundancy) (p : Package) (k : ℕ)
    → IsSyndrome v r.mark r.cp
    → IsFound v r.mark p k
    → IsStep r p k s
    → IsSyndrome v s.mark s.cp
step-IsSyndrome v r s p k h f st =
    rw (st.mark, st.cp) (IsSyndrome-redundancy_xor v r.mark r p k h f.place f.lost f.words)
