-- ===== src/Store/Hours.antt =====
-- src/infrastructure/persistence/repositories/business_hour_repository.py
pub mod Upsert
use schedule_appointments.Base.{ℕ, suc, Bool, ◌&&◌, not, List, [], ◌∷◌, ◌++◌, map, ◌==◌, keep}
use schedule_appointments.Base.Sort.{sort_on}
use schedule_appointments.Hours.{BusinessHour}
use schedule_appointments.Store.Tables.{Db, HourRow}

-- A group of `upsert_many`: a business and a weekday.
pub record DayKey : Type 0 where
  pub business_id : ℕ
  pub day_of_week : ℕ

abbrev pub key_of : BusinessHour → DayKey
key_of h = record { business_id = h.business_id; day_of_week = h.day_of_week }

abbrev pub is_on : DayKey → BusinessHour → Bool
is_on k h = h.business_id == k.business_id && h.day_of_week == k.day_of_week

abbrev pub same_key : DayKey → DayKey → Bool
same_key k j = j.business_id == k.business_id && j.day_of_week == k.day_of_week

-- The keys of the groups, each once, in the order in which they first come.
abbrev pub group_keys : List BusinessHour → List DayKey
group_keys [] = []
group_keys (h ∷ hs) = key_of h ∷ keep (λ j. not (same_key (key_of h) j)) (group_keys hs)

-- `enumerate(sorted_items, start=n)`
abbrev pub numbered : ℕ → List BusinessHour → List HourRow
numbered n [] = []
numbered n (h ∷ hs) = record { hour = h; sequence = n } ∷ numbered (suc n) hs

module _ (tenant : ℕ) where
  abbrev pub is_row_of : DayKey → HourRow → Bool
  is_row_of k r = is_on k r.hour && r.hour.tenant_id == tenant

  unfoldable pub get_by_business_and_day : ℕ → ℕ → Db → List BusinessHour
  get_by_business_and_day business day db =
      map (λ (r : HourRow). r.hour)
        (sort_on (λ (r : HourRow). r.sequence)
          (keep (is_row_of (record { business_id = business; day_of_week = day })) db.hours))

  -- `ORDER BY day_of_week, sequence`: a stable sort by the second key, then by the first.
  unfoldable pub get_by_business : ℕ → Db → List BusinessHour
  get_by_business business db =
      map (λ (r : HourRow). r.hour)
        (sort_on (λ (r : HourRow). r.hour.day_of_week)
          (sort_on (λ (r : HourRow). r.sequence)
            (keep (λ (r : HourRow). r.hour.business_id == business && r.hour.tenant_id == tenant)
              db.hours)))

  -- The rows of one group, sorted by their opening times and numbered, in place of the old ones.
  abbrev pub replace_day : List BusinessHour → DayKey → List HourRow → List HourRow
  replace_day items k rows =
      keep (λ r. not (is_row_of k r)) rows
      ++ numbered 1 (sort_on (λ (h : BusinessHour). h.open_at) (keep (is_on k) items))

  abbrev pub replace_days : List BusinessHour → List DayKey → List HourRow → List HourRow
  replace_days items [] rows = rows
  replace_days items (k ∷ ks) rows = replace_days items ks (replace_day items k rows)

  unfoldable pub upsert_many : List BusinessHour → Db → Db
  upsert_many items db = record db { hours = replace_days items (group_keys items) db.hours }
