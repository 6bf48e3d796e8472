-- ===== src/Schedule.antt =====
-- src/application/business_hours: the use cases that set and patch the opening hours. The names of
-- the weekdays in their answers are left out.
mod Entries
mod Groups
pub mod Week
pub mod Orderly
use schedule_appointments.Base.{
  ℕ, suc, Bool, false, ◌||◌, not, Option, List, [], ◌∷◌, leb, keep, any, if◌then◌else◌,
}
use schedule_appointments.Base.Int.{ℤ, eqb_ℤ}
use schedule_appointments.Errors.{
  Result, ok, err, then_try, validation, not_found, attribute_error, bad_day, empty_schedule,
  overlapping_ranges, no_hours,
}
use schedule_appointments.Hours
use schedule_appointments.Hours.{BusinessHour, in_week}
use schedule_appointments.Store.Tables.{Tx, ◌>>=◌, ◌>>◌, pure, raise, query, lift, modify}
use schedule_appointments.Store.Hours as HourStore

-- `DayScheduleInput`
pub record DayEntry : Type 0 where
  pub day_of_week : ℤ
  pub open_at : ℕ
  pub close_at : ℕ
  pub is_closed : Bool

abbrev pub is_of_day : ℤ → DayEntry → Bool
is_of_day d e = eqb_ℤ e.day_of_week d

-- The keys of `day_groups`, each once, in the order in which they first come.
abbrev pub group_days : List DayEntry → List ℤ
group_days [] = []
group_days (e ∷ es) = e.day_of_week ∷ keep (λ d. not (eqb_ℤ e.day_of_week d)) (group_days es)

abbrev pub clashes : DayEntry → DayEntry → Bool
clashes a b = not (leb a.close_at b.open_at || leb b.close_at a.open_at)

abbrev pub has_overlap : List DayEntry → Bool
has_overlap [] = false
has_overlap (a ∷ rest) = any (clashes a) rest || has_overlap rest

-- The ranges of a day that are not closed.
abbrev pub open_entries : ℤ → List DayEntry → List DayEntry
open_entries d es = keep (λ e. not e.is_closed) (keep (is_of_day d) es)

abbrev pub check_groups : List DayEntry → List ℤ → Result (Unit {0})
check_groups es [] = ok tt
check_groups es (d ∷ ds) =
    if not (in_week d)
    then err (validation bad_day)
    else if has_overlap (open_entries d es)
    then err (validation overlapping_ranges)
    else check_groups es ds

unfoldable pub validate_schedule : List DayEntry → Result (Unit {0})
validate_schedule [] = err (validation empty_schedule)
validate_schedule (e ∷ es) = check_groups (e ∷ es) (group_days (e ∷ es))

-- `new_ids n` is the id that `uuid4` gives to the n-th entry.
abbrev pub create_all :
    (new_ids : ℕ → ℕ) (now tenant business n : ℕ) → List DayEntry → Result (List BusinessHour)
create_all new_ids now tenant business n [] = ok []
create_all new_ids now tenant business n (e ∷ es) =
    let rest = create_all new_ids now tenant business (suc n) es in
    then_try
      (Hours.create (new_ids n) now tenant business e.day_of_week e.open_at e.close_at e.is_closed)
      λ h. then_try rest λ hs. ok (h ∷ hs)

unfoldable pub set_business_hours :
    (new_ids : ℕ → ℕ) (now tenant business : ℕ) → List DayEntry → Tx (List BusinessHour)
set_business_hours new_ids now tenant business schedule = do
  lift (validate_schedule schedule)
  hours ← lift (create_all new_ids now tenant business 0 schedule)
  modify (HourStore.upsert_many tenant hours)
  query (HourStore.get_by_business tenant business)

-- `upsert` calls `self._upsert_one`, which the class does not define.
abbrev pub upsert : BusinessHour → Tx (Unit {0})
upsert h = raise attribute_error

abbrev changed : Result (Unit {0}) × BusinessHour → Result BusinessHour
changed (ok _, h) = ok h
changed (err e, h) = err e

-- The first range of the day is patched.
abbrev patch_first : Option ℕ → Option ℕ → Option Bool → ℕ → List BusinessHour → Tx BusinessHour
patch_first open_at close_at is_closed now [] = raise (not_found no_hours)
patch_first open_at close_at is_closed now (h ∷ _) = do
  patched ← lift (changed (Hours.update open_at close_at is_closed now h))
  upsert patched
  pure patched

unfoldable pub update_day_hours :
    (now tenant business day : ℕ) → Option ℕ → Option ℕ → Option Bool → Tx BusinessHour
update_day_hours now tenant business day open_at close_at is_closed = do
  ranges ← query (HourStore.get_by_business_and_day tenant business day)
  patch_first open_at close_at is_closed now ranges
