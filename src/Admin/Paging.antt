-- ===== src/Admin/Paging.antt =====
-- The page numbers that the lists of src/application/business, service and professional clamp.
use schedule_appointments.Base.{ℕ, ◌-◌, ◌*◌, ltb, if◌then◌else◌}
use schedule_appointments.Base.Int.{ℤ, pos_part}

-- `max(1, n)`
abbrev pub at_least_one : ℕ → ℕ
at_least_one n = if ltb n 1 then 1 else n

-- `max(1, page)`
abbrev pub page_number : ℤ → ℕ
page_number p = at_least_one (pos_part p)

-- `max(1, min(100, page_size))`
abbrev pub page_length : ℤ → ℕ
page_length s = at_least_one (if ltb 100 (pos_part s) then 100 else pos_part s)

-- `(page - 1) * page_size`
abbrev pub page_offset : ℤ → ℤ → ℕ
page_offset p s = (page_number p - 1) * page_length s
