-- ===== src/Store/Hours/Upsert.antt =====
-- Reading back what `upsert_many` of business_hour_repository.py wrote.
use mathlib.Core.List.{map, append-nil}
use schedule_appointments.Base.{
  ℕ, suc, ◌≤◌, ◌≡◌, refl, sym, ap, subst, inl, inr, Bool, true, false, ◌&&◌, not, List, [], ◌∷◌,
  arith, ◌==◌, keep, any, All, All-map, All-tabulate, Pairs, keep-append, keep-keep_implied,
  keep-none, keep-keep-not, keep-All, any-keep, Bool-cases, if◌then◌else◌,
}
use schedule_appointments.Base.Sort.{sort_on, sort_on-sorted, All-sort_on}
use schedule_appointments.Hours.{BusinessHour}
use schedule_appointments.Store.Tables.{Db, HourRow}
use schedule_appointments.Store.Hours.{
  DayKey, key_of, is_on, same_key, group_keys, numbered, is_row_of, get_by_business_and_day,
  replace_day, replace_days, upsert_many,
}

any-group_keys :
    (k : DayKey) (items : List BusinessHour)
    → any (same_key k) (group_keys items) ≡ any (is_on k) items
any-group_keys k [] = refl
any-group_keys k (h ∷ hs) = elim (Bool-cases (same_key k (key_of h))) [
  | inl e ↦ ground arith
  | inr e ↦
      let others =
        any-keep (same_key k) (λ j. not (same_key (key_of h) j)) (group_keys hs)
          (λ j f. ground arith) in
      ground (arith, others, any-group_keys k hs)
]

All-numbered :
    (P : BusinessHour → Type 0) (n : ℕ) (hs : List BusinessHour)
    → All P hs
    → All (λ (r : HourRow). P r.hour) (numbered n hs)
All-numbered P n [] h = tt
All-numbered P n (x ∷ hs) h = (h.0, All-numbered P (suc n) hs h.1)

later_numbers :
    (m n : ℕ) (hs : List BusinessHour)
    → m ≤ n
    → All (λ (r : HourRow). m ≤ r.sequence) (numbered n hs)
later_numbers m n [] le = tt
later_numbers m n (x ∷ hs) le = (le, later_numbers m (suc n) hs (omega arith))

numbered-IsSorted :
    (n : ℕ) (hs : List BusinessHour)
    → Pairs (λ (r s : HourRow). r.sequence ≤ s.sequence) (numbered n hs)
numbered-IsSorted n [] = tt
numbered-IsSorted n (x ∷ hs) =
    (later_numbers n (suc n) hs (omega arith), numbered-IsSorted (suc n) hs)

map-numbered : (n : ℕ) (hs : List BusinessHour) → map (λ (r : HourRow). r.hour) (numbered n hs) ≡ hs
map-numbered n [] = refl
map-numbered n (x ∷ hs) = ap (λ t. x ∷ t) (map-numbered (suc n) hs)

-- The ranges of one weekday of a list, by their opening times.
abbrev pub day_of : DayKey → List BusinessHour → List BusinessHour
day_of k items = sort_on (λ (h : BusinessHour). h.open_at) (keep (is_on k) items)

All-day_of :
    (P : BusinessHour → Type 0) (j : DayKey) (items : List BusinessHour)
    → All (λ h. is_on j h ≡ true → P h) items
    → All P (day_of j items)
All-day_of P j items h = All-sort_on (λ h. h.open_at) P (keep (is_on j) items) (kept items h)
  where
    kept :
        (xs : List BusinessHour) → All (λ h. is_on j h ≡ true → P h) xs → All P (keep (is_on j) xs)
    kept [] h = tt
    kept (x ∷ xs) h = elim (Bool-cases (is_on j x)) [
      | inl e ↦ rw e (h.0 e, kept xs h.1)
      | inr e ↦ rw e (kept xs h.1)
    ]

module _ (tenant : ℕ) (items : List BusinessHour) (k : DayKey) where
  abbrev mine : HourRow → Bool
  mine = is_row_of tenant k

  abbrev written : List HourRow
  written = numbered 1 (day_of k items)

  -- Another weekday, or another business, is left alone.
  keep-replace_day_other :
      (j : DayKey) (rows : List HourRow)
      → same_key k j ≡ false
      → keep mine (replace_day tenant items j rows) ≡ keep mine rows
  keep-replace_day_other j rows ne =
      let away =
        All-numbered (λ h. (is_on k h && h.tenant_id == tenant) ≡ false) 1 (day_of j items)
          (All-day_of _ j items (All-tabulate items (λ h e. ground arith))) in
      rw (keep-append mine) (
        rw (keep-keep_implied mine (λ r. not (is_row_of tenant j r)) rows (λ r h. ground arith))
          (rw (keep-none mine (numbered 1 (day_of j items)) away) (append-nil (keep mine rows))))

  -- The old rows of the weekday are gone, and the new ones are there.
  keep-replace_day_self :
      (rows : List HourRow)
      → All (λ h. h.tenant_id ≡ tenant) items
      → keep mine (replace_day tenant items k rows) ≡ written
  keep-replace_day_self rows own =
      let there =
        All-numbered (λ h. (is_on k h && h.tenant_id == tenant) ≡ true) 1 (day_of k items)
          (All-day_of _ k items (All-map items (λ h t e. ground arith) own)) in
      rw (keep-append mine) (rw (keep-keep-not mine rows) (keep-All mine written there))

  keep-replace_days :
      (ks : List DayKey) (rows : List HourRow)
      → All (λ h. h.tenant_id ≡ tenant) items
      → keep mine (replace_days tenant items ks rows)
        ≡ (if any (same_key k) ks then written else keep mine rows)
  keep-replace_days [] rows own = refl
  keep-replace_days (j ∷ js) rows own = elim (Bool-cases (same_key k j)) [
    | inl e ↦
        let same : j ≡ k = ground arith in
        let self =
          subst (λ d. keep mine (replace_day tenant items d rows) ≡ written) (sym same)
            (keep-replace_day_self rows own) in
        let rest = keep-replace_days js (replace_day tenant items j rows) own in
        ground (arith, rest, self)
    | inr e ↦
        let self = keep-replace_day_other j rows e in
        let rest = keep-replace_days js (replace_day tenant items j rows) own in rw (rest, self, e)
  ]

  -- What `upsert_many` wrote for a weekday is read back by its opening times; a weekday or business
  -- that was not in its argument is read as before. The entries are of the current tenant.
  pub get-upsert_many :
      (db : Db)
      → All (λ h. h.tenant_id ≡ tenant) items
      → get_by_business_and_day tenant k.business_id k.day_of_week (upsert_many tenant items db) ≡ (
          if any (is_on k) items
          then day_of k items
          else get_by_business_and_day tenant k.business_id k.day_of_week db)
  unfolding get_by_business_and_day upsert_many
  get-upsert_many db own =
      rw (keep-replace_days (group_keys items) db.hours own, any-group_keys k items)
        (elim (Bool-cases (any (is_on k) items)) [
          | inl e ↦
              rw
                (
                  e,
                  sort_on-sorted (λ (r : HourRow). r.sequence) written
                      (numbered-IsSorted 1 (day_of k items)),
                )
                (map-numbered 1 (day_of k items))
          | inr e ↦ rw e
        ])
