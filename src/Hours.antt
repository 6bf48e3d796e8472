-- ===== src/Hours.antt =====
-- src/domain/business_hours/business_hour.py: the entity BusinessHour, one open range of a weekday.
-- A time of day is a number of microseconds since midnight.
use schedule_appointments.Base.{ℕ, Bool, false, not, ◌&&◌, Option, ltb, leb, or_else, if◌then◌else◌}
use schedule_appointments.Base.Int.{ℤ, pos, negsuc, pos_part}
use schedule_appointments.Errors.{Result, ok, err, Method, business_rule, bad_day, bad_times}

pub record BusinessHour : Type 0 where
  pub id : ℕ
  pub tenant_id : ℕ
  pub business_id : ℕ
  pub day_of_week : ℕ
  pub open_at : ℕ
  pub close_at : ℕ
  pub is_closed : Bool
  pub created_at : ℕ
  pub updated_at : ℕ

-- `day_of_week in range(7)`
abbrev pub in_week : ℤ → Bool
in_week (pos n) = ltb n 7
in_week (negsuc n) = false

-- The guards that `_validate_times` refuses.
abbrev pub has_bad_times : ℕ → ℕ → Bool
has_bad_times open_at close_at = leb close_at open_at

unfoldable pub create :
    (new_id now tenant business : ℕ) → ℤ → (open_at close_at : ℕ) → Bool → Result BusinessHour
create new_id now tenant business day open_at close_at is_closed =
    if not (in_week day)
    then err (business_rule bad_day)
    else if not is_closed && has_bad_times open_at close_at
    then err (business_rule bad_times)
    else ok (record {
      id = new_id;
      tenant_id = tenant;
      business_id = business;
      day_of_week = pos_part day;
      open_at = open_at;
      close_at = close_at;
      is_closed = is_closed;
      created_at = now;
      updated_at = now;
    })

-- `none` leaves a field alone.
unfoldable pub update : Option ℕ → Option ℕ → Option Bool → ℕ → Method BusinessHour
update open_at close_at is_closed now h =
    let new_open = or_else open_at h.open_at in
    let new_close = or_else close_at h.close_at in
    let new_closed = or_else is_closed h.is_closed in
    if not new_closed && has_bad_times new_open new_close
    then (err (business_rule bad_times), h)
    else (
      ok tt,
      record h {
        open_at = new_open;
        close_at = new_close;
        is_closed = new_closed;
        updated_at = now;
      },
    )
