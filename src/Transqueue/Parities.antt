-- ===== src/Transqueue/Parities.antt =====
-- The last data packet of a unit: the unit is encoded, its parity packets are sent, and the sender
-- is ready for the next unit.
use zxlib.Prelude.{
  ℕ, ◌+◌, ◌*◌, ◌^◌, ◌<◌, ◌≡◌, ◌≢◌, ◌⊎◌, inl, inr, refl, sym, arith, true, false, leb, Any,
  Any-append, Any-map, ℕ_discrete, Bool-cases,
}
use zxlib.Prelude.Loop.{for_up_inv}
use zxlib.Package.{Package, package_offset_code}
use zxlib.UnitCode.{unit_encode, unit_malloc}
use zxlib.UnitCode.Cell.{PackageUnit}
use zxlib.UnitCode.Encode.{IsCodeword, HasBlankParity, unit_encode-IsCodeword, unit_encode_frame}
use zxlib.Transqueue.Send.{
  Sender, place_i, place_j, place_k, is_parity, send_parity, send_parities, finish_unit, send_data,
  transqueue_send, sender_open,
}
use zxlib.Transqueue.Wire.{IsSent, Gone, send_parities-Gone}
use zxlib.Transqueue.Encoded.{encoded_with, encoded_with-other, encoded_with-last, send_data-last}
use zxlib.Transqueue.Unit.{
  IsSender, AreSent, IsSent-cell, send_data-AreSent, send_data-HasBlankParity,
}

-- The parity packets leave what is on the wire.
module _ (P : (ℕ → ℕ) → Type 0) where
  send_parity-keeps : (i j k : ℕ) (t : Sender) → Any P t.wire → Any P (send_parity i j k t).wire
  unfolding send_parity
  send_parity-keeps i j k t h = elim (Bool-cases (is_parity i j k)) [
    | inl e ↦ rw e (Any-append P t.wire _ h)
    | inr e ↦ rw e h
  ]

  send_parities-keeps : (t : Sender) → Any P t.wire → Any P (send_parities t).wire
  unfolding send_parities
  send_parities-keeps t h =
      for_up_inv (λ i t. Any P t.wire) 8 _ t
        (λ i t _ h.
          for_up_inv (λ j t. Any P t.wire) 8 _ t
            (λ j t _ h.
              for_up_inv (λ k t. Any P t.wire) 8 _ t (λ k t _. send_parity-keeps i j k t) h)
            h)
        h

-- The whole unit `v` is on the wire.
pub record IsUnitSent (v : PackageUnit) (id : ℕ) (t : Sender) : Type 0 where
  pub codeword : IsCodeword v
  pub sent : (i j k : ℕ) → i < 8 → j < 8 → k < 8 → Any (IsSent v id i j k) t.wire
  pub blank : HasBlankParity t.u
  pub unit : t.id ≡ id

parity_cell : (i j k : ℕ) → is_parity i j k ≡ true → ((i ≡ 7) ⊎ (j ≡ 7)) ⊎ (k ≡ 7)
parity_cell i j k e = ground (arith, e)

cell_parity : (i j k : ℕ) → ((i ≡ 7) ⊎ (j ≡ 7)) ⊎ (k ≡ 7) → is_parity i j k ≡ true
cell_parity i j k h = ground (arith, h)

module _ (t : Sender) (full : t.number ≡ 343) (small : t.id < 2 ^ 31) where
  abbrev coded : Sender
  coded = record t { u = unit_encode t.u }

  gone :
      (i j k : ℕ)
      → i < 8
      → j < 8
      → k < 8
      → is_parity i j k ≡ true
      → Gone (unit_encode t.u) t.id i j k (send_parities coded)
  gone i j k p q r e =
      send_parities-Gone (unit_encode t.u) t.id i j k coded p q r small e
        (record { cell = refl; unit = refl; upto = omega arith })

  -- A data packet was sent before, and the encoder has left it alone.
  data-IsSent :
      (i j k : ℕ)
      → i < 7
      → j < 7
      → k < 7
      → AreSent 343 t
      → Any (IsSent (unit_encode t.u) t.id i j k) (send_parities coded).wire
  data-IsSent i j k p q r h = send_parities-keeps _ coded (
      Any-map (λ w. IsSent-cell t.id i j k w (sym (unit_encode_frame t.u i j k p q r))) t.wire
        (at_place _ (place i j k p q r) (h (49 * i + 7 * j + k) (omega arith))))
    where
      place :
          (i j k : ℕ)
          → i < 7
          → j < 7
          → k < 7
          → (place_i (49 * i + 7 * j + k) ≡ i)
            × (place_j (49 * i + 7 * j + k) ≡ j)
            × (place_k (49 * i + 7 * j + k) ≡ k)
      place i j k p q r = (omega arith, omega arith, omega arith)

      at_place :
          (m : ℕ)
          → (place_i m ≡ i) × (place_j m ≡ j) × (place_k m ≡ k)
          → Any (IsSent t.u t.id (place_i m) (place_j m) (place_k m)) t.wire
          → Any (IsSent t.u t.id i j k) t.wire
      at_place m (a, b, c) h = rw (← a, ← b, ← c) h

  send_parities-IsUnitSent :
      HasBlankParity t.u → AreSent 343 t → IsUnitSent (unit_encode t.u) t.id (send_parities coded)
  send_parities-IsUnitSent blank h = record {
    codeword = unit_encode-IsCodeword t.u blank;
    sent = λ i j k p q r. elim (Bool-cases (is_parity i j k)) [
      | inl e ↦ (gone i j k p q r e).sent
      | inr e ↦ data-IsSent i j k (ground (arith, e)) (ground (arith, e)) (ground (arith, e)) h
    ];
    blank = λ i j k w p q r c. (gone i j k p q r (cell_parity i j k c)).blank w;
    unit = (gone 7 7 7 (omega arith) (omega arith) (omega arith) refl).unit;
  }

module _ (s : Sender) (p : Package) (h : IsSender s) where
  pub more_data : s.number ≢ 342 → transqueue_send s p ≡ send_data s p
  unfolding transqueue_send send_data
  more_data ne = rw (not_full ne) refl
    where
      not_full : s.number ≢ 342 → leb 343 (s.number + 1) ≡ false
      not_full ne = ground (arith, h.number)

  last_data : s.number ≡ 342 → transqueue_send s p ≡ finish_unit (send_data s p)
  unfolding transqueue_send send_data
  last_data e = rw (full e) refl
    where
      full : s.number ≡ 342 → leb 343 (s.number + 1) ≡ true
      full e = ground arith

  last-IsUnitSent :
      s.number ≡ 342
      → IsUnitSent
          (unit_encode (send_data s p).u)
          s.id
          (send_parities (record (send_data s p) { u = unit_encode (send_data s p).u }))
  unfolding send_data
  last-IsUnitSent e =
      send_parities-IsUnitSent (send_data s p) (omega arith) h.small
        (send_data-HasBlankParity s p h) (λ m lt. send_data-AreSent s p h m (omega arith))

  send_data-IsSender : s.number ≢ 342 → IsSender (send_data s p)
  unfolding send_data
  send_data-IsSender ne = record {
    number = omega (arith, h.number);
    small = h.small;
    blank = send_data-HasBlankParity s p h;
    sent = send_data-AreSent s p h;
  }

-- With the last data packet `p` of a unit a whole codeword is on the wire, the encoding of the unit
-- with `p` in its last data cell: that cell has the words of `p` before the code word, and the other
-- data cells are as they were. Of every cell, data and parity, the packet has been handed to the
-- network, with a code word that holds the number of the unit and the coordinates of the cell. The
-- sender then starts the next unit.
pub transqueue_send_unit :
    (s : Sender) (p : Package)
    → IsSender s
    → s.number ≡ 342
    → IsCodeword (encoded_with s p)
      × ((w : ℕ) → w < package_offset_code → (encoded_with s p 6 6 6).words w ≡ p.words w)
      × ((i j k : ℕ) → i < 7 → j < 7 → k < 7 → i + j + k < 18 → encoded_with s p i j k ≡ s.u i j k)
      × ((i j k : ℕ)
          → i < 8
          → j < 8
          → k < 8
          → Any (IsSent (encoded_with s p) s.id i j k) (transqueue_send s p).wire)
      × ((transqueue_send s p).number ≡ 0)
      × ((transqueue_send s p).id ≡ s.id + 1)
unfolding finish_unit
transqueue_send_unit s p h e =
    let g = last-IsUnitSent s p h e in
    let same = send_data-last s p e in
    rw (last_data s p h e) (
      rw (← same) g.codeword,
      encoded_with-last s p,
      encoded_with-other s p,
      rw (← same) g.sent,
      refl,
      omega (arith, g.unit, h.small),
    )

-- The sender's invariant: between two packets the unit holds, in their cells, the data packets of the
-- current unit that are already on the wire, and its parity cells are blank, as `unit_encode`
-- expects them. Every packet keeps it, the last of a unit included, while unit numbers fit 31 bits.
pub transqueue_send-IsSender :
    (s : Sender) (p : Package) → IsSender s → s.id + 1 < 2 ^ 31 → IsSender (transqueue_send s p)
unfolding finish_unit
transqueue_send-IsSender s p h small = elim (ℕ_discrete s.number 342) [
  | yes e ↦
      let g = last-IsUnitSent s p h e in
      rw (last_data s p h e) (record {
        number = omega arith;
        small = omega (arith, g.unit);
        blank = g.blank;
        sent = λ m lt. absurd (omega arith);
      })
  | no ne ↦ rw (more_data s p h ne) (send_data-IsSender s p h ne)
]

pub sender_open-IsSender : IsSender sender_open
unfolding sender_open unit_malloc zxlib.Package.Words.package_malloc
sender_open-IsSender = record {
  number = omega arith;
  small = omega arith;
  blank = λ i j k w a b c d. ground arith;
  sent = λ m lt. absurd (omega arith);
}
