-- ===== src/Transqueue/Unit.antt =====
-- What the sender keeps between two packets, and the step of a data packet.
use zxlib.Prelude.{
  ℕ, ◌+◌, ◌^◌, ◌<◌, ◌≡◌, refl, ap, ◌∙◌, arith, Any, Any-append, Any-snoc, Any-map, ℕ_discrete,
}
use zxlib.Package.{Package}
use zxlib.UnitCode.Cell.{PackageUnit, store}
use zxlib.UnitCode.Encode.{HasBlankParity}
use zxlib.Transqueue.Send.{Sender, place_i, place_j, place_k, set_place, send_data}
use zxlib.Transqueue.Wire.{IsSent, set_place-IsSent}

-- The first `n` data packets of the unit are in their cells and on the wire.
abbrev pub AreSent : ℕ → Sender → Type 0
AreSent n s = (m : ℕ) → m < n → Any (IsSent s.u s.id (place_i m) (place_j m) (place_k m)) s.wire

-- Between two packets.
pub record IsSender (s : Sender) : Type 0 where
  pub number : s.number < 343
  pub small : s.id < 2 ^ 31
  pub blank : HasBlankParity s.u
  pub sent :
      (m : ℕ) → m < s.number → Any (IsSent s.u s.id (place_i m) (place_j m) (place_k m)) s.wire

pub IsSent-cell :
    {u v : PackageUnit} (id i j k : ℕ) (q : ℕ → ℕ)
    → u i j k ≡ v i j k
    → IsSent u id i j k q
    → IsSent v id i j k q
IsSent-cell id i j k q e h = record {
  words = λ w lt. h.words w lt ∙ ap (λ (p : Package). p.words w) e;
  unit = h.unit;
  at_i = h.at_i;
  at_j = h.at_j;
  at_k = h.at_k;
}

store_self : (u : PackageUnit) (i j k : ℕ) (p : Package) → store u i j k p i j k ≡ p
store_self u i j k p = ground arith

store-IsSent :
    (u v : PackageUnit) (id i j k : ℕ) (q : Package)
    → IsSent v id i j k q.words
    → IsSent (store u i j k q) id i j k q.words
store-IsSent u v id i j k q h = record {
  words = λ w lt. rw (store_self u i j k q) refl;
  unit = h.unit;
  at_i = h.at_i;
  at_j = h.at_j;
  at_k = h.at_k;
}

-- The new packet is sent and stored.
module _ (s : Sender) (p : Package) (h : IsSender s) where
  last-IsSent :
      Any
        (IsSent (send_data s p).u s.id (place_i s.number) (place_j s.number) (place_k s.number))
        (send_data s p).wire
  unfolding send_data
  last-IsSent =
      let g =
        set_place-IsSent (λ i j k. p) s.id 0 s.number (place_i s.number) (place_j s.number)
          (place_k s.number) h.small (omega arith) (omega (arith, h.number))
          (omega (arith, h.number)) (omega arith) (omega arith) in
      Any-snoc _ s.wire _ (
        store-IsSent s.u (λ i j k. p) s.id (place_i s.number) (place_j s.number) (place_k s.number)
          (set_place p s.id 0 s.number (place_i s.number) (place_j s.number) (place_k s.number)) g)

  pub send_data-AreSent : AreSent (s.number + 1) (send_data s p)
  unfolding send_data
  send_data-AreSent m lt = elim (ℕ_discrete m s.number) [
    | yes e ↦ rw e last-IsSent
    | no ne ↦ Any-append _ s.wire _ (
        Any-map
          (λ q. IsSent-cell s.id (place_i m) (place_j m) (place_k m) q (other m (omega arith)))
          s.wire (h.sent m (omega arith)))
  ]
    where
      other :
          (m : ℕ)
          → m < s.number
          → s.u (place_i m) (place_j m) (place_k m)
            ≡ (send_data s p).u (place_i m) (place_j m) (place_k m)
      other m lt = ground (arith, h.number)

  pub send_data-HasBlankParity : HasBlankParity (send_data s p).u
  unfolding send_data
  send_data-HasBlankParity i j k w a b c d = ground (arith, h.number, h.blank i j k w a b c d)
