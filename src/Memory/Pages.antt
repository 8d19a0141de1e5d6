-- ===== src/Memory/Pages.antt =====
-- The tree of pages is a set of addresses.
use zxlib.Prelude.{
  ℕ, zero, suc, ◌-◌, ◌*◌, ◌/◌, ◌%◌, ◌^◌, ◌<◌, ◌≤◌, ◌≡◌, inl, inr, bit_and, refl, ap, sym, ◌∙◌,
  arith, Bool, true, false, not, ◌&&◌, ◌||◌, Option, none, some, ◌==◌, Bool-cases, ==_iff,
}
use zxlib.Memory.Table.{
  lib_page_mask, lib_page_dmask, Pages, new_page, page_at, insert_at, select_at, delete_at,
  lib_page_insert, lib_page_select, lib_page_delete,
}
use zxlib.Memory.Digits.{
  digit, digit-bit_or, digit-bit_and, bit_and-pow, digit-pow, digit-lt, digit-cleared,
}
use native.Mathlib.Nat.{one-le-pow}

-- `p` and `q` take the same way down from a page with `n` levels below it, to the same bit.
abbrev same : ℕ → ℕ → ℕ → Bool
same zero p q = lib_page_dmask p == lib_page_dmask q
same (suc n) p q = (lib_page_mask n p == lib_page_mask n q) && same n p q

bit_test : (k x : ℕ) → not (bit_and x (2 ^ k) == 0) ≡ (digit k x == 1)
bit_test k x =
    rw (bit_and-pow k x) (small (digit k x) (2 ^ k) (digit-lt k x) (one-le-pow k 2 (omega arith)))
  where
    small : (d w : ℕ) → d < 2 → 1 ≤ w → not (d * w == 0) ≡ (d == 1)
    small zero w p h = ground arith
    small (suc zero) w p h = ground arith
    small (suc (suc d)) w p h = absurd (omega arith)

select_at-new_page : (n p : ℕ) → select_at n p (new_page n) ≡ false
unfolding select_at new_page
select_at-new_page zero p =
    bit_test (lib_page_dmask p % 2 ^ 3) 0 ∙ zero_digit (lib_page_dmask p % 2 ^ 3)
  where
    zero_digit : (k : ℕ) → (digit k 0 == 1) ≡ false
    zero_digit zero = refl
    zero_digit (suc k) = zero_digit k
select_at-new_page (suc n) p = refl

select_at-page_at :
    (n p : ℕ) (o : Option (Pages n))
    → select_at n p (page_at n o) ≡ elim o [ none ↦ false | some page ↦ select_at n p page ]
unfolding page_at
select_at-page_at n p none = select_at-new_page n p
select_at-page_at n p (some page) = refl

module _ (p q : ℕ) where
  abbrev byte_at : ℕ
  byte_at = lib_page_dmask q / 2 ^ 3

  abbrev place : ℕ
  place = lib_page_dmask q % 2 ^ 3

  select_at-insert_at :
      (n : ℕ) (map : Pages n)
      → select_at n q (insert_at n p map) ≡ (same n p q || select_at n q map)
  unfolding select_at insert_at page_at
  select_at-insert_at zero map =
      bit_test place _
      ∙ ground (
        arith,
        bit_test place (map byte_at),
        digit-bit_or place (map byte_at) (2 ^ (lib_page_dmask p % 2 ^ 3)),
        digit-pow place (lib_page_dmask p % 2 ^ 3),
        digit-lt place (map byte_at),
      )
  select_at-insert_at (suc n) map = elim (Bool-cases (lib_page_mask n p == lib_page_mask n q)) [
    | inl e ↦
        let here = ap map ((==_iff (lib_page_mask n p) (lib_page_mask n q)).0 e) in
        ground (
          arith,
          here,
          select_at-insert_at n (page_at n (map (lib_page_mask n p))),
          select_at-page_at n q (map (lib_page_mask n p)),
        )
    | inr e ↦ ground arith
  ]

  select_at-delete_at :
      (n : ℕ) (map : Pages n)
      → select_at n q (delete_at n p map) ≡ (not (same n p q) && select_at n q map)
  unfolding select_at delete_at
  select_at-delete_at zero map =
      bit_test place _
      ∙ ground (
        arith,
        bit_test place (map byte_at),
        digit-bit_and place (map byte_at) (2 ^ 64 - 1 - 2 ^ (lib_page_dmask p % 2 ^ 3)),
        digit-cleared place (lib_page_dmask p % 2 ^ 3) (omega arith) (omega arith),
        digit-lt place (map byte_at),
      )
  select_at-delete_at (suc n) map =
      delete_step n map (map (lib_page_mask n p)) refl (select_at-delete_at n)
    where
      delete_step :
          (n : ℕ) (map : Pages (suc n)) (o : Option (Pages n))
          → map (lib_page_mask n p) ≡ o
          → ((page : Pages n)
              → select_at n q (delete_at n p page) ≡ (not (same n p q) && select_at n q page))
          → select_at (suc n) q (delete_at (suc n) p map)
            ≡ (not (same (suc n) p q) && select_at (suc n) q map)
      delete_step n map none e ih = elim (Bool-cases (lib_page_mask n p == lib_page_mask n q)) [
        | inl f ↦ ground (arith, e, ap map ((==_iff (lib_page_mask n p) (lib_page_mask n q)).0 f))
        | inr f ↦ ground (arith, e)
      ]
      delete_step n map (some page) e ih =
          elim (Bool-cases (lib_page_mask n p == lib_page_mask n q)) [
            | inl f ↦
                ground
                  (arith, e, ih page, ap map ((==_iff (lib_page_mask n p) (lib_page_mask n q)).0 f))
            | inr f ↦ ground (arith, e)
          ]

-- The four entries and the bit make up the whole number.
eq_of_same : (p q : ℕ) → p < 2 ^ 59 → q < 2 ^ 59 → same 4 p q ≡ true → p ≡ q
eq_of_same p q h k e =
    let low : p % 2 ^ 15 ≡ q % 2 ^ 15 = ground arith in
    let m0 : p / 2 ^ 15 % 2 ^ 11 ≡ q / 2 ^ 15 % 2 ^ 11 = ground arith in
    let m1 : p / 2 ^ 26 % 2 ^ 11 ≡ q / 2 ^ 26 % 2 ^ 11 = ground arith in
    let m2 : p / 2 ^ 37 % 2 ^ 11 ≡ q / 2 ^ 37 % 2 ^ 11 = ground arith in
    let m3 : p / 2 ^ 48 % 2 ^ 11 ≡ q / 2 ^ 48 % 2 ^ 11 = ground arith in
    whole p q h k low m0 m1 m2 m3
  where
    whole :
        (p q : ℕ)
        → p < 2 ^ 59
        → q < 2 ^ 59
        → p % 2 ^ 15 ≡ q % 2 ^ 15
        → p / 2 ^ 15 % 2 ^ 11 ≡ q / 2 ^ 15 % 2 ^ 11
        → p / 2 ^ 26 % 2 ^ 11 ≡ q / 2 ^ 26 % 2 ^ 11
        → p / 2 ^ 37 % 2 ^ 11 ≡ q / 2 ^ 37 % 2 ^ 11
        → p / 2 ^ 48 % 2 ^ 11 ≡ q / 2 ^ 48 % 2 ^ 11
        → p ≡ q
    whole p q h k e m0 m1 m2 m3 = omega arith

same_self : (n p : ℕ) → same n p p ≡ true
same_self zero p = ground arith
same_self (suc n) p = ground (arith, same_self n p)

same_iff : (p q : ℕ) → p < 2 ^ 59 → q < 2 ^ 59 → same 4 p q ≡ (p == q)
same_iff p q h k = elim (Bool-cases (same 4 p q)) [
  | inl e ↦ e ∙ sym ((==_iff p q).1 (eq_of_same p q h k e))
  | inr e ↦ elim (Bool-cases (p == q)) [
    | inl f ↦ absurd (cc (e, (==_iff p q).0 f, same_self 4 p))
    | inr f ↦ e ∙ sym f
  ]
]

-- For 64-bit addresses the table is a set of blocks of 32 bytes: an insertion adds the block of its
-- address and no other, and a deletion takes it away and no other. (The address -1 is never found.)
pub lib_page_select_lem :
    (p q : ℕ)
    → p < 2 ^ 64
    → q < 2 ^ 64 - 1
    → (libmap : Option (Pages 4))
    → (lib_page_select q (lib_page_insert p libmap)
        ≡ ((p / 2 ^ 5 == q / 2 ^ 5) || lib_page_select q libmap))
      × (lib_page_select q (lib_page_delete p libmap)
          ≡ (not (p / 2 ^ 5 == q / 2 ^ 5) && lib_page_select q libmap))
unfolding lib_page_select lib_page_insert lib_page_delete page_at
lib_page_select_lem p q h k none =
    let same = same_iff (p / 2 ^ 5) (q / 2 ^ 5) (omega arith) (omega arith) in
    (
      ground (
        arith,
        same,
        select_at-insert_at (p / 2 ^ 5) (q / 2 ^ 5) 4 (new_page 4),
        select_at-new_page 4 (q / 2 ^ 5),
      ),
      ground arith,
    )
lib_page_select_lem p q h k (some page) =
    let same = same_iff (p / 2 ^ 5) (q / 2 ^ 5) (omega arith) (omega arith) in
    (
      ground (arith, same, select_at-insert_at (p / 2 ^ 5) (q / 2 ^ 5) 4 page),
      ground (arith, same, select_at-delete_at (p / 2 ^ 5) (q / 2 ^ 5) 4 page),
    )
