-- ===== src/UnitCode/Search.antt =====
-- The search of one line for lost packets.
use zxlib.Prelude.{
  ℕ, zero, suc, ◌<◌, ◌≤◌, ◌≡◌, ◌≢◌, inl, inr, arith, Bool, true, false, ltb, Bool-cases,
}
use zxlib.Prelude.Loop.{for_up}
use zxlib.UnitCode.{Scan, scan_cell, scan}

-- What the search of the first `n` places knows. The search counts to two at most.
pub record Knows (present : ℕ → Bool) (n : ℕ) (s : Scan) : Type 0 where
  pub few : s.num ≤ 2
  pub zero : s.num ≡ 0 → (c : ℕ) → c < n → present c ≡ true
  pub one :
      s.num ≡ 1
      → (s.index < n)
        × (present s.index ≡ false)
        × ((c : ℕ) → c < n → c ≢ s.index → present c ≡ true)
  pub two :
      s.num ≡ 2
      → (c d : ℕ) × (c < n) × (d < n) × (c ≢ d) × (present c ≡ false) × (present d ≡ false)

module _ (mark present : ℕ → Bool)
    (marked : (c : ℕ) → c < 8 → present c ≡ false → mark c ≡ true) where
  Knows-scan_cell :
      (n : ℕ) (s : Scan)
      → n < 8
      → Knows present n s
      → Knows present (suc n) (scan_cell mark present n s)
  unfolding scan_cell
  Knows-scan_cell n s h k = record {
    few = ground (arith, k.few);
    zero = λ e c q.
        let old : s.num ≡ 0 → c < n → present c ≡ true = λ a b. k.zero a c b in
        ground (arith, marked n h, old);
    one = λ e. (
      ground (arith, k.one, marked n h),
      ground (arith, k.one, marked n h),
      λ c q ne.
          let old0 : s.num ≡ 0 → c < n → present c ≡ true = λ a b. k.zero a c b in
          let old1 : s.num ≡ 1 → c < n → c ≢ s.index → present c ≡ true =
            λ a b d. (k.one a).2 c b d in
          ground (arith, marked n h, old0, old1),
    );
    two = λ e. elim (Bool-cases (ltb 1 s.num)) [
      | inl t ↦
          let (c, d, p, q, ne, x, y) = k.two (ground arith) in
          (c, d, omega arith, omega arith, ne, x, y)
      | inr t ↦ (
        s.index,
        n,
        ground (arith, k.one),
        ground arith,
        ground (arith, k.one),
        ground (arith, k.one),
        ground arith,
      )
    ];
  }

  pub scan-Knows : (n : ℕ) → n ≤ 8 → Knows present n (scan mark present n)
  unfolding scan for_up
  scan-Knows zero h = record {
    few = omega arith;
    zero = λ e c q. absurd (omega arith);
    one = λ e. absurd (omega arith);
    two = λ e. absurd (omega arith);
  }
  scan-Knows (suc n) h =
      Knows-scan_cell n (scan mark present n) (omega arith) (scan-Knows n (omega arith))
