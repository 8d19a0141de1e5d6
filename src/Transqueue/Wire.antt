-- ===== src/Transqueue/Wire.antt =====
-- What the sender puts on the wire.
use zxlib.Prelude.{
  ℕ, suc, ◌+◌, ◌*◌, ◌^◌, ◌<◌, ◌≤◌, ◌≡◌, ◌≢◌, inl, inr, refl, ap, ◌∙◌, arith, true, false, ◌&&◌,
  ◌==◌, Any, Any-append, Any-snoc, Bool-cases,
}
use zxlib.Prelude.Loop.{for_up, for_up_inv, for_up_hits}
use zxlib.Package.{Package, PackageCode, package_offset_code}
use zxlib.Package.Code.{get_code_word, get_code_word-set_code_word}
use zxlib.Package.Words.{package_reset}
use zxlib.UnitCode.Cell.{PackageUnit}
use zxlib.Transqueue.Send.{Sender, set_place, is_parity, send_parity, send_parities}

-- The words `q` on the wire are packet `(i, j, k)` of unit `id`: its coded words, and a code word
-- that tells the receiver where it belongs.
pub record IsSent (v : PackageUnit) (id i j k : ℕ) (q : ℕ → ℕ) : Type 0 where
  pub words : (w : ℕ) → w < package_offset_code → q w ≡ (v i j k).words w
  pub unit : (get_code_word (q package_offset_code)).id ≡ id
  pub at_i : (get_code_word (q package_offset_code)).i0 ≡ i
  pub at_j : (get_code_word (q package_offset_code)).i1 ≡ j
  pub at_k : (get_code_word (q package_offset_code)).i2 ≡ k

pub set_place_word :
    (p : Package) (id sign num i j k w : ℕ)
    → w < package_offset_code
    → (set_place p id sign num i j k).words w ≡ p.words w
unfolding set_place zxlib.Package.Words.package_set_code
set_place_word p id sign num i j k w h = ground arith

set_place_code :
    (p : Package) (id sign num i j k : ℕ)
    → id < 2 ^ 31
    → sign < 2
    → num < 2 ^ 16
    → i < 8
    → j < 8
    → k < 8
    → get_code_word ((set_place p id sign num i j k).words package_offset_code)
      ≡ record { id = id; sign = sign; num = num; i0 = i; i1 = j; i2 = k }
unfolding set_place zxlib.Package.Words.package_set_code
set_place_code p id sign num i j k a b c d e f =
    get_code_word-set_code_word _ (record {
      id = ground arith;
      sign = omega arith;
      num = omega arith;
      i0 = omega arith;
      i1 = omega arith;
      i2 = omega arith;
    })
    ∙ ground arith

pub set_place-IsSent :
    (v : PackageUnit) (id sign num i j k : ℕ)
    → id < 2 ^ 31
    → sign < 2
    → num < 2 ^ 16
    → i < 8
    → j < 8
    → k < 8
    → IsSent v id i j k (set_place (v i j k) id sign num i j k).words
set_place-IsSent v id sign num i j k a b c d e f =
    let h = set_place_code (v i j k) id sign num i j k a b c d e f in
    record {
      words = set_place_word (v i j k) id sign num i j k;
      unit = ap (λ (c : PackageCode). c.id) h;
      at_i = ap (λ (c : PackageCode). c.i0) h;
      at_j = ap (λ (c : PackageCode). c.i1) h;
      at_k = ap (λ (c : PackageCode). c.i2) h;
    }

-- Parity packet `(x, y, z)` of the encoded unit `v` waits for its turn, at most `n` packets having
-- been numbered.
pub record Waits (v : PackageUnit) (id x y z n : ℕ) (t : Sender) : Type 0 where
  pub cell : t.u x y z ≡ v x y z
  pub unit : t.id ≡ id
  pub upto : t.number ≤ n

-- It has been sent, and its cell is blank again.
pub record Gone (v : PackageUnit) (id x y z : ℕ) (t : Sender) : Type 0 where
  pub sent : Any (IsSent v id x y z) t.wire
  pub blank : (w : ℕ) → (t.u x y z).words w ≡ 0
  pub unit : t.id ≡ id

module _ (v : PackageUnit) (id x y z : ℕ) where
  Waits-mono : {n m : ℕ} {t : Sender} → n ≤ m → Waits v id x y z n t → Waits v id x y z m t
  Waits-mono h w = record { cell = w.cell; unit = w.unit; upto = omega (arith, w.upto) }

  -- Another cell's turn.
  send_parity-Waits :
      (i j k n : ℕ) (t : Sender)
      → ((x == i) && ((y == j) && (z == k))) ≡ false
      → Waits v id x y z n t
      → Waits v id x y z (suc n) (send_parity i j k t)
  unfolding send_parity
  send_parity-Waits i j k n t ne w = record {
    cell = ground (arith, ne, w.cell);
    unit = ground (arith, w.unit);
    upto = ground (arith, w.upto);
  }

  send_parity-Gone :
      (i j k : ℕ) (t : Sender) → Gone v id x y z t → Gone v id x y z (send_parity i j k t)
  unfolding send_parity package_reset
  send_parity-Gone i j k t g = elim (Bool-cases (is_parity i j k)) [
    | inl e ↦ rw e (record {
      sent = Any-append _ t.wire _ g.sent;
      blank = λ w. ground (arith, g.blank w);
      unit = g.unit;
    })
    | inr e ↦ rw e g
  ]

  -- Its own turn.
  send_parity-hit :
      (n : ℕ) (t : Sender)
      → x < 8
      → y < 8
      → z < 8
      → id < 2 ^ 31
      → n < 2 ^ 16
      → is_parity x y z ≡ true
      → Waits v id x y z n t
      → Gone v id x y z (send_parity x y z t)
  unfolding send_parity package_reset
  send_parity-hit n t p q r small lt e w =
      rw (e, w.cell, w.unit)
        (record {
          sent = Any-snoc _ t.wire _ (
              set_place-IsSent v id 1 t.number x y z small (omega arith) (omega (arith, w.upto)) p q
                r);
          blank = λ w. ground arith;
          unit = refl;
        })

  row-Waits :
      (i j n : ℕ) (t : Sender)
      → ((x == i) && (y == j)) ≡ false
      → Waits v id x y z n t
      → Waits v id x y z (n + 8) (for_up 8 (λ k. send_parity i j k) t)
  row-Waits i j n t ne w =
      for_up_inv (λ k. Waits v id x y z (n + k)) 8 (λ k. send_parity i j k) t
        (λ k t _ h.
          Waits-mono (omega arith) (send_parity-Waits i j k (n + k) t (ground (arith, ne)) h))
        (Waits-mono (omega arith) w)

  plane-Waits :
      (i n : ℕ) (t : Sender)
      → x ≢ i
      → Waits v id x y z n t
      → Waits v id x y z (n + 64) (for_up 8 (λ j. for_up 8 (λ k. send_parity i j k)) t)
  plane-Waits i n t ne w =
      for_up_inv (λ j. Waits v id x y z (n + 8 * j)) 8 _ t
        (λ j t _ h. Waits-mono (omega arith) (row-Waits i j (n + 8 * j) t (ground (arith, ne)) h))
        (Waits-mono (omega arith) w)

  row-Gone :
      (i j : ℕ) (t : Sender)
      → Gone v id x y z t
      → Gone v id x y z (for_up 8 (λ k. send_parity i j k) t)
  row-Gone i j t = for_up_inv (λ _. Gone v id x y z) 8 _ t (λ k t _. send_parity-Gone i j k t)

  plane-Gone :
      (i : ℕ) (t : Sender)
      → Gone v id x y z t
      → Gone v id x y z (for_up 8 (λ j. for_up 8 (λ k. send_parity i j k)) t)
  plane-Gone i t = for_up_inv (λ _. Gone v id x y z) 8 _ t (λ j t _. row-Gone i j t)

  pub send_parities-Gone :
      (t : Sender)
      → x < 8
      → y < 8
      → z < 8
      → id < 2 ^ 31
      → is_parity x y z ≡ true
      → Waits v id x y z 343 t
      → Gone v id x y z (send_parities t)
  unfolding send_parities
  send_parities-Gone t p q r small e w =
      for_up_hits (λ i. Waits v id x y z (343 + 64 * i)) (Gone v id x y z) 8 x _ t p
        (λ i t lt h. Waits-mono (omega arith) (plane-Waits i (343 + 64 * i) t (omega arith) h))
        (λ i t _. plane-Gone i t)
        (λ t h.
          for_up_hits (λ j. Waits v id x y z (343 + 64 * x + 8 * j)) (Gone v id x y z) 8 y _ t q
            (λ j t lt h.
              Waits-mono (omega arith) (row-Waits x j (343 + 64 * x + 8 * j) t (ground arith) h))
            (λ j t _. row-Gone x j t)
            (λ t h.
              for_up_hits (λ k. Waits v id x y z (343 + 64 * x + 8 * y + k)) (Gone v id x y z) 8 z _
                t r
                (λ k t lt h.
                  Waits-mono (omega arith)
                    (send_parity-Waits x y k (343 + 64 * x + 8 * y + k) t (ground arith) h))
                (λ k t _. send_parity-Gone x y k t)
                (λ t h. send_parity-hit (343 + 64 * x + 8 * y + z) t p q r small (omega arith) e h)
                (Waits-mono (omega arith) h))
            (Waits-mono (omega arith) h))
        (Waits-mono (omega arith) w)
