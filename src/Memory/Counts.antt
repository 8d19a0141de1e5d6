-- ===== src/Memory/Counts.antt =====
-- `lib_malloc`, `lib_free`, `lib_flag_add` and `lib_flag_sub`: blocks with a count of references in
-- front. What malloc returns is an argument. The count is a `char`, which is signed on x86.
use zxlib.Prelude.{
  ℕ, ◌+◌, ◌-◌, ◌%◌, ◌^◌, Bool, ◌||◌, Option, none, some, List, [], ◌∷◌, ◌++◌, ◌==◌, leb,
  if◌then◌else◌,
}
use zxlib.Prelude.Family.{update}
use zxlib.Memory.Table.{Pages, lib_page_insert, lib_page_select, lib_page_delete}

-- `lib_info`, of 16 bytes. A byte is its pattern.
pub record LibInfo : Type 0 where
  pub lock : ℕ
  pub flag : ℕ
  pub size : ℕ
  pub free : ℕ  -- the address of the function

-- The table, the headers by their addresses, the totals, and what has been given to `free`.
pub record Lib : Type 0 where
  pub libmap : Option (Pages 4)
  pub info : ℕ → LibInfo
  pub memory_total : ℕ
  pub memory_time : ℕ
  pub freed : List ℕ

-- `((lib_info *)ptr) - 1`
abbrev pub info_of : ℕ → ℕ
info_of ptr = (ptr + 2 ^ 64 - 16) % 2 ^ 64

-- `lib_malloc_3(size, free, …)`, with what malloc or calloc has returned.
unfoldable pub lib_malloc : (size free : ℕ) → Option ℕ → Lib → Option ℕ × Lib
lib_malloc size free none l = (none, l)
lib_malloc size free (some ptr) l = (
  some (ptr + 16),
  record l {
    libmap = lib_page_insert ptr l.libmap;
    info = update l.info ptr (record { lock = 0; flag = 1; size = size; free = free });
    memory_total = (l.memory_total + size) % 2 ^ 64;
    memory_time = (l.memory_time + 1) % 2 ^ 64;
  },
)

-- `__lib_free`
unfoldable pub lib_free_now : ℕ → Lib → Lib
lib_free_now ptr l = record l {
  libmap = lib_page_delete (info_of ptr) l.libmap;
  memory_total = (l.memory_total + 2 ^ 64 - (l.info (info_of ptr)).size) % 2 ^ 64;
  memory_time = (l.memory_time + 2 ^ 64 - 1) % 2 ^ 64;
  freed = l.freed ++ info_of ptr ∷ [];
}

abbrev pub with_flag : ℕ → ℕ → Lib → Lib
with_flag ptr flag l = record l {
  info = update l.info (info_of ptr) (record (l.info (info_of ptr)) { flag = flag });
}

unfoldable pub lib_flag_add : ℕ → Lib → Lib
lib_flag_add ptr l =
    if lib_page_select (info_of ptr) l.libmap
    then with_flag ptr (((l.info (info_of ptr)).flag + 1) % 2 ^ 8) l
    else l

-- A signed byte that is at most zero.
abbrev pub is_spent : ℕ → Bool
is_spent flag = flag == 0 || leb 128 flag

unfoldable pub lib_flag_sub : ℕ → Lib → Lib
lib_flag_sub ptr l =
    let flag = ((l.info (info_of ptr)).flag + 2 ^ 8 - 1) % 2 ^ 8 in
    if lib_page_select (info_of ptr) l.libmap
    then (if is_spent flag then lib_free_now ptr (with_flag ptr flag l) else with_flag ptr flag l)
    else l

unfoldable pub lib_free : ℕ → Lib → Lib
lib_free ptr l = lib_flag_sub ptr l
