-- ===== src/Memory/Table.antt =====
-- `lib_page_insert`, `lib_page_select` and `lib_page_delete`: a tree of four levels of pages with
-- 2 ^ 11 entries over pages with one bit for each 32 bytes. Each is called by one thread at a time
-- here: the pages that are missing are made under a lock, and a bit is set or cleared at once.
use zxlib.Prelude.{
  ℕ, zero, suc, ◌+◌, ◌-◌, ◌*◌, ◌/◌, ◌%◌, ◌^◌, bit_and, bit_or, Bool, false, not, Option, none, some,
  ◌==◌, if◌then◌else◌,
}
use zxlib.Prelude.Family.{update}

abbrev pub lib_page_offset : ℕ
lib_page_offset = 5

abbrev pub lib_page_bit : ℕ
lib_page_bit = 11

abbrev pub lib_page_num : ℕ
lib_page_num = 4

abbrev pub lib_page_dbit : ℕ
lib_page_dbit = 15

-- `LIB_PAGE_MASK(p, LIB_PAGE_NUM - 1 - n)`: the entry of a page with `n` levels below it.
abbrev pub lib_page_mask : ℕ → ℕ → ℕ
lib_page_mask n p = p / 2 ^ (n * lib_page_bit + lib_page_dbit) % 2 ^ lib_page_bit

-- `LIB_PAGE_DMASK`
abbrev pub lib_page_dmask : ℕ → ℕ
lib_page_dmask p = p % 2 ^ lib_page_dbit

-- `lib_dpage`, and pages with so many levels of pages above it.
abbrev pub Pages : ℕ → Type 0
Pages zero = ℕ → ℕ
Pages (suc n) = ℕ → Option (Pages n)

-- `calloc(1, sizeof(lib_page))` and `calloc(1, sizeof(lib_dpage))`
unfoldable pub new_page : (n : ℕ) → Pages n
new_page zero = λ i. 0
new_page (suc n) = λ i. none

-- The page at an entry, made where there is none.
unfoldable pub page_at : (n : ℕ) → Option (Pages n) → Pages n
page_at n none = new_page n
page_at n (some page) = page

unfoldable pub insert_at : (n : ℕ) → ℕ → Pages n → Pages n
insert_at zero p map =
    let mask = lib_page_dmask p in
    update map (mask / 2 ^ 3) (bit_or (map (mask / 2 ^ 3)) (2 ^ (mask % 2 ^ 3)))
insert_at (suc n) p map =
    let mask = lib_page_mask n p in update map mask (some (insert_at n p (page_at n (map mask))))

unfoldable pub select_at : (n : ℕ) → ℕ → Pages n → Bool
select_at zero p map =
    let mask = lib_page_dmask p in not (bit_and (map (mask / 2 ^ 3)) (2 ^ (mask % 2 ^ 3)) == 0)
select_at (suc n) p map = elim (map (lib_page_mask n p)) [
  | none ↦ false
  | some page ↦ select_at n p page
]

-- `& ~(1 << k)`, on 64 bits.
unfoldable pub delete_at : (n : ℕ) → ℕ → Pages n → Pages n
delete_at zero p map =
    let mask = lib_page_dmask p in
    update map (mask / 2 ^ 3) (bit_and (map (mask / 2 ^ 3)) (2 ^ 64 - 1 - 2 ^ (mask % 2 ^ 3)))
delete_at (suc n) p map = elim (map (lib_page_mask n p)) [
  | none ↦ map
  | some page ↦ update map (lib_page_mask n p) (some (delete_at n p page))
]

-- `libmap`, which is NULL before the first insertion.
unfoldable pub lib_page_insert : ℕ → Option (Pages lib_page_num) → Option (Pages lib_page_num)
lib_page_insert ptr libmap = some (insert_at 4 (ptr / 2 ^ lib_page_offset) (page_at 4 libmap))

unfoldable pub lib_page_select : ℕ → Option (Pages lib_page_num) → Bool
lib_page_select ptr libmap =
    if ptr == 2 ^ 64 - 1
    then false
    else elim libmap [ none ↦ false | some page ↦ select_at 4 (ptr / 2 ^ lib_page_offset) page ]

unfoldable pub lib_page_delete : ℕ → Option (Pages lib_page_num) → Option (Pages lib_page_num)
lib_page_delete ptr libmap = elim libmap [
  | none ↦ none
  | some page ↦ some (delete_at 4 (ptr / 2 ^ lib_page_offset) page)
]
