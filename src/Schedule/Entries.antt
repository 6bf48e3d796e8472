-- ===== src/Schedule/Entries.antt =====
-- From the entries of a request that `_validate_input` accepts to the hours that it creates.
use schedule_appointments.Base.{
  ℕ, suc, ◌<◌, ◌≤◌, ◌≡◌, refl, ◌∙◌, subst, ◌⊎◌, inl, inr, Bool, true, false, not, List, [], ◌∷◌,
  arith, keep, any, All, Pairs, Bool-cases,
}
use schedule_appointments.Base.Int.{pos}
use schedule_appointments.Errors.{ok, then_try-eq-ok, ok-injective}
use schedule_appointments.Hours
use schedule_appointments.Hours.{BusinessHour}
use schedule_appointments.Store.Hours.{is_on}
use schedule_appointments.Schedule.{
  DayEntry, is_of_day, clashes, has_overlap, open_entries, create_all,
}

-- What is created for an entry.
pub record Matches (tenant business : ℕ) (e : DayEntry) (h : BusinessHour) : Type 0 where
  pub of_tenant : h.tenant_id ≡ tenant
  pub of_business : h.business_id ≡ business
  pub day : e.day_of_week ≡ pos h.day_of_week
  pub open_at : h.open_at ≡ e.open_at
  pub close_at : h.close_at ≡ e.close_at
  pub closed : h.is_closed ≡ e.is_closed
  pub proper : (h.is_closed ≡ true) ⊎ (h.open_at < h.close_at)

create-Matches :
    (new_id now tenant business : ℕ) (e : DayEntry) (h : BusinessHour)
    → Hours.create new_id now tenant business e.day_of_week e.open_at e.close_at e.is_closed ≡ ok h
    → Matches tenant business e h
unfolding Hours.create
create-Matches new_id now tenant business e h p = ground arith

abbrev pub AllMatch : (tenant business : ℕ) → List DayEntry → List BusinessHour → Type 0
AllMatch tenant business [] [] = Unit
AllMatch tenant business (e ∷ es) (h ∷ hs) =
    Matches tenant business e h × AllMatch tenant business es hs
AllMatch tenant business _ _ = ⊥

pub create_all-AllMatch :
    (new_ids : ℕ → ℕ) (now tenant business n : ℕ) (es : List DayEntry) (hs : List BusinessHour)
    → create_all new_ids now tenant business n es ≡ ok hs
    → AllMatch tenant business es hs
create_all-AllMatch new_ids now tenant business n [] hs p =
    subst (AllMatch tenant business []) (ok-injective p) tt
create_all-AllMatch new_ids now tenant business n (e ∷ es) hs p =
    let (h, made, q) =
      then_try-eq-ok
        (Hours.create (new_ids n) now tenant business e.day_of_week e.open_at e.close_at
          e.is_closed)
        _ p in
    let (rest, later, r) = then_try-eq-ok (create_all new_ids now tenant business (suc n) es) _ q in
    subst (AllMatch tenant business (e ∷ es)) (ok-injective r) (
      create-Matches (new_ids n) now tenant business e h made,
      create_all-AllMatch new_ids now tenant business (suc n) es rest later,
    )

module _ (tenant business day : ℕ) where
  abbrev on_day : BusinessHour → Bool
  on_day = is_on (record { business_id = business; day_of_week = day })

  abbrev pub open_hours : List BusinessHour → List BusinessHour
  open_hours hs = keep (λ h. not h.is_closed) (keep on_day hs)

  Matches-on_day :
      (e : DayEntry) (h : BusinessHour)
      → Matches tenant business e h
      → on_day h ≡ is_of_day (pos day) e
  Matches-on_day e h m = ground (arith, m.day, m.of_business)

  -- A test that no open entry of the day passes says so of the open hours.
  untested :
      (P : BusinessHour → Type 0) (q : DayEntry → Bool) (es : List DayEntry)
      (hs : List BusinessHour)
      → ((e : DayEntry) (h : BusinessHour)
          → Matches tenant business e h
          → h.is_closed ≡ false
          → q e ≡ false
          → P h)
      → AllMatch tenant business es hs
      → any q (open_entries (pos day) es) ≡ false
      → All P (open_hours hs)
  untested P q [] [] f m none_passes = tt
  untested P q [] (h ∷ hs) f m none_passes = absurd m
  untested P q (e ∷ es) [] f m none_passes = absurd m
  untested P q (e ∷ es) (h ∷ hs) f m none_passes = elim (Bool-cases (is_of_day (pos day) e)) [
    | inr off ↦
        let off' : on_day h ≡ false = Matches-on_day e h m.0 ∙ off in
        rw off' (untested P q es hs f m.1 (rw off at none_passes))
    | inl on ↦
        let on' : on_day h ≡ true = Matches-on_day e h m.0 ∙ on in
        elim (Bool-cases e.is_closed) [
          | inl shut ↦
              let shut' : h.is_closed ≡ true = m.0.closed ∙ shut in
              rw on' (rw shut' (untested P q es hs f m.1 (ground arith)))
          | inr ajar ↦
              let ajar' : h.is_closed ≡ false = m.0.closed ∙ ajar in
              rw on' (
                simp ajar'
                  (f e h m.0 ajar' (ground arith), untested P q es hs f m.1 (ground arith)))
        ]
  ]

  -- Neither of two ranges is empty, and one of them ends before the other starts.
  abbrev pub Apart : BusinessHour → BusinessHour → Type 0
  Apart a b =
      (a.open_at < a.close_at)
      × (b.open_at < b.close_at)
      × ((a.close_at ≤ b.open_at) ⊎ (b.close_at ≤ a.open_at))

  unclashed :
      (e e' : DayEntry) (h h' : BusinessHour)
      → Matches tenant business e h
      → h.is_closed ≡ false
      → Matches tenant business e' h'
      → h'.is_closed ≡ false
      → clashes e e' ≡ false
      → Apart h h'
  unclashed e e' h h' m ajar m' ajar' c =
      ground (arith, m.open_at, m.close_at, m'.open_at, m'.close_at, m.proper, m'.proper)

  pub created-Apart :
      (es : List DayEntry) (hs : List BusinessHour)
      → AllMatch tenant business es hs
      → has_overlap (open_entries (pos day) es) ≡ false
      → Pairs Apart (open_hours hs)
  created-Apart [] [] m free = tt
  created-Apart [] (h ∷ hs) m free = absurd m
  created-Apart (e ∷ es) [] m free = absurd m
  created-Apart (e ∷ es) (h ∷ hs) m free = elim (Bool-cases (is_of_day (pos day) e)) [
    | inr off ↦
        let off' : on_day h ≡ false = Matches-on_day e h m.0 ∙ off in
        rw off' (created-Apart es hs m.1 (rw off at free))
    | inl on ↦
        let on' : on_day h ≡ true = Matches-on_day e h m.0 ∙ on in
        elim (Bool-cases e.is_closed) [
          | inl shut ↦
              let shut' : h.is_closed ≡ true = m.0.closed ∙ shut in
              rw on' (rw shut' (created-Apart es hs m.1 (ground arith)))
          | inr ajar ↦
              let ajar' : h.is_closed ≡ false = m.0.closed ∙ ajar in
              rw on' (
                simp ajar' (
                  untested (Apart h) (clashes e) es hs
                      (λ e' h' m' k c. unclashed e e' h h' m.0 ajar' m' k c) m.1 (ground arith),
                  created-Apart es hs m.1 (ground arith),
                ))
        ]
  ]

  pub created-proper :
      (es : List DayEntry) (hs : List BusinessHour)
      → AllMatch tenant business es hs
      → All (λ h. h.open_at < h.close_at) (open_hours hs)
  created-proper es hs m =
      untested (λ h. h.open_at < h.close_at) (λ _. false) es hs
        (λ e h k c _. ground (arith, k.proper)) m (never (open_entries (pos day) es))
    where
      never : (xs : List DayEntry) → any (λ _. false) xs ≡ false
      never [] = refl
      never (x ∷ xs) = never xs

  pub AllMatch-on_day :
      (es : List DayEntry) (hs : List BusinessHour)
      → AllMatch tenant business es hs
      → any on_day hs ≡ any (is_of_day (pos day)) es
  AllMatch-on_day [] [] m = refl
  AllMatch-on_day [] (h ∷ hs) m = absurd m
  AllMatch-on_day (e ∷ es) [] m = absurd m
  AllMatch-on_day (e ∷ es) (h ∷ hs) m = cc (Matches-on_day e h m.0, AllMatch-on_day es hs m.1)

pub AllMatch-tenant :
    (tenant business : ℕ) (es : List DayEntry) (hs : List BusinessHour)
    → AllMatch tenant business es hs
    → All (λ h. h.tenant_id ≡ tenant) hs
AllMatch-tenant tenant business [] [] m = tt
AllMatch-tenant tenant business [] (h ∷ hs) m = absurd m
AllMatch-tenant tenant business (e ∷ es) [] m = absurd m
AllMatch-tenant tenant business (e ∷ es) (h ∷ hs) m =
    (m.0.of_tenant, AllMatch-tenant tenant business es hs m.1)
