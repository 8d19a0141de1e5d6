-- ===== src/UnitCode/Size.antt =====
-- The sizes of a unit, from unit.h.
use zxlib.Prelude.{ℕ, ◌-◌, ◌*◌}

abbrev pub unit_length : ℕ
unit_length = 8

abbrev pub unit_data_count : ℕ
unit_data_count = (unit_length - 1) * (unit_length - 1) * (unit_length - 1)

abbrev pub unit_total_count : ℕ
unit_total_count = unit_length * unit_length * unit_length
