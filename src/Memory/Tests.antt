-- ===== src/Memory/Tests.antt =====
-- Runs of the table and of the counts.
use zxlib.Prelude.{
  ◌+◌, ◌-◌, ◌^◌, ◌/◌, ◌<◌, ◌≤◌, ◌≡◌, refl, arith, true, false, not, ◌&&◌, ◌||◌, ◌==◌, none, [],
}
use zxlib.Memory.Table.{Pages, lib_page_insert, lib_page_select, lib_page_delete}
use zxlib.Memory.Pages.{lib_page_select_lem}
use zxlib.Memory.Counts.{Lib}
use zxlib.Memory.References.{IsLive, IsDead, released, lib_free-IsDead, lib_free_overflow}

-- Two addresses in the same block of 32 bytes, and one in another.
test-lib_page_select :
    (lib_page_select 0x12345670 (lib_page_insert 0x12345660 none) ≡ true)
    × (lib_page_select 0x12345680 (lib_page_insert 0x12345660 none) ≡ false)
unfolding lib_page_select lib_page_insert zxlib.Memory.Table.page_at zxlib.Memory.Table.insert_at
    zxlib.Memory.Table.select_at zxlib.Memory.Table.new_page
test-lib_page_select = (refl, refl)

lib_page_select_lem_example :
    (lib_page_select 0x12345670 (lib_page_insert 0x12345660 none)
      ≡ ((0x12345660 / 2 ^ 5 == 0x12345670 / 2 ^ 5) || lib_page_select 0x12345670 none))
    × (lib_page_select 0x12345670 (lib_page_delete 0x12345660 none)
        ≡ (not (0x12345660 / 2 ^ 5 == 0x12345670 / 2 ^ 5) && lib_page_select 0x12345670 none))
lib_page_select_lem_example =
    lib_page_select_lem 0x12345660 0x12345670 (omega arith) (omega arith) none

abbrev fresh_lib : Lib
fresh_lib = record {
  libmap = none;
  info = λ a. record { lock = 0; flag = 0; size = 0; free = 0 };
  memory_total = 0;
  memory_time = 0;
  freed = [];
}

lib_free-IsDead_example :
    (3 ≤ 2 → IsLive (0x1000 + 16) (2 + 1 - 3) [] (released 8 0 0x1000 fresh_lib (omega arith) 2 3))
    × (2 < 3 → IsDead (0x1000 + 16) [] (released 8 0 0x1000 fresh_lib (omega arith) 2 3))
lib_free-IsDead_example = lib_free-IsDead 8 0 0x1000 fresh_lib (omega arith) 2 3 (omega arith)

lib_free_overflow_example :
    IsDead (0x1000 + 16) [] (released 8 0 0x1000 fresh_lib (omega arith) 200 1)
lib_free_overflow_example =
    lib_free_overflow 8 0 0x1000 fresh_lib (omega arith) 200 (omega arith) (omega arith)
