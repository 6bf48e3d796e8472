-- ===== src/Schedule/Groups.antt =====
-- What `_validate_input` of set_business_hours.py says of each weekday of a schedule.
use schedule_appointments.Base.{
  ℕ, ◌≡◌, refl, ◌∙◌, subst, inl, inr, Bool, true, false, not, List, [], ◌∷◌, arith, any, any-keep,
  Bool-cases, if◌then◌else◌,
}
use schedule_appointments.Base.Int.{ℤ, pos, negsuc, eqb_ℤ}
use schedule_appointments.Errors.{ok, err, validation, bad_day, overlapping_ranges}
use schedule_appointments.Hours.{in_week}
use schedule_appointments.Schedule.{
  DayEntry, is_of_day, group_days, has_overlap, open_entries, check_groups, validate_schedule,
}

eqb_ℤ-pos : (d : ℤ) (n : ℕ) → eqb_ℤ d (pos n) ≡ true → d ≡ pos n
eqb_ℤ-pos (pos m) n h = ground arith
eqb_ℤ-pos (negsuc m) n h = absurd (ground arith)

any-group_days :
    (d : ℤ) (es : List DayEntry) → any (λ k. eqb_ℤ k d) (group_days es) ≡ any (is_of_day d) es
any-group_days d [] = refl
any-group_days d (e ∷ es) = elim (Bool-cases (eqb_ℤ e.day_of_week d)) [
  | inl same ↦ rw same
  | inr other ↦
      let others =
        any-keep (λ k. eqb_ℤ k d) (λ k. not (eqb_ℤ e.day_of_week k)) (group_days es)
          (λ k f. ground arith) in
      ground (arith, others, any-group_days d es)
]

check_groups-day :
    (n : ℕ) (es : List DayEntry) (ds : List ℤ)
    → check_groups es ds ≡ ok tt
    → any (λ k. eqb_ℤ k (pos n)) ds ≡ true
    → has_overlap (open_entries (pos n) es) ≡ false
check_groups-day n es [] h k = cc
check_groups-day n es (d ∷ ds) h k = elim (Bool-cases (eqb_ℤ d (pos n))) [
  | inl same ↦
      subst (λ x. has_overlap (open_entries x es) ≡ false) (eqb_ℤ-pos d n same)
        (no_overlap (in_week d) (has_overlap (open_entries d es)) h)
  | inr other ↦
      check_groups-day n es ds (passed (in_week d) (has_overlap (open_entries d es)) h)
        (ground arith)
]
  where
    no_overlap :
        (a b : Bool)
        → (if not a
            then err (validation bad_day)
            else if b
            then err (validation overlapping_ranges)
            else check_groups es ds)
          ≡ ok tt
        → b ≡ false
    no_overlap a b p = ground arith

    passed :
        (a b : Bool)
        → (if not a
            then err (validation bad_day)
            else if b
            then err (validation overlapping_ranges)
            else check_groups es ds)
          ≡ ok tt
        → check_groups es ds ≡ ok tt
    passed a b p = ground arith

-- Of a schedule that is accepted, the open entries of a weekday do not overlap.
pub validate_schedule-day :
    (n : ℕ) (es : List DayEntry)
    → validate_schedule es ≡ ok tt
    → any (is_of_day (pos n)) es ≡ true
    → has_overlap (open_entries (pos n) es) ≡ false
unfolding validate_schedule
validate_schedule-day n [] h k = cc
validate_schedule-day n (e ∷ es) h k =
    check_groups-day n (e ∷ es) (group_days (e ∷ es)) h (any-group_days (pos n) (e ∷ es) ∙ k)
