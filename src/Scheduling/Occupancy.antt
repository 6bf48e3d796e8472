-- ===== src/Scheduling/Occupancy.antt =====
-- What it means that the appointments of a business are not overbooked, and what a new row must
-- satisfy to keep it so.
use schedule_appointments.Base.{
  ℕ, ◌+◌, ◌≤◌, ◌<◌, ◌≡◌, ◌≢◌, inl, inr, Bool, true, ◌&&◌, not, Option, none, List, [], ◌∷◌, ◌++◌,
  arith, ◌==◌, count, count-append, count_and-le, count_and-eq, sym, All, All-map, All-append_one,
  Pairs, Pairs-append_one, if◌then◌else◌, Bool-cases,
}
use schedule_appointments.Appointment.{Appointment, ends_at}
use schedule_appointments.Store.Appointments.{is_live, is_with}
use schedule_appointments.Store.Rows.{
  merge, Unique, All-merge, Pairs-merge, Unique-merge, count-merge,
}

-- The two appointments overlap.
abbrev pub Meet : Appointment → Appointment → Type 0
Meet a b = (a.scheduled_at < ends_at b) × (b.scheduled_at < ends_at a)

-- Two appointments may overlap only where both services are group classes, and then only in the
-- same session if the class is the same. `cap` gives the capacity of a service.
abbrev pub Compatible : (ℕ → ℕ) → Appointment → Appointment → Type 0
Compatible cap a b =
    Meet a b
    → (1 < cap a.service_id)
      × (1 < cap b.service_id)
      × (a.service_id ≡ b.service_id → a.scheduled_at ≡ b.scheduled_at)

-- The live appointments of a business, all of them or those with one professional.
module _ (tenant business : ℕ) (staff : Option ℕ) where
  abbrev pub in_scope : Appointment → Bool
  in_scope a =
      a.business_id == business && (a.tenant_id == tenant && (is_live a.status && is_with staff a))

  abbrev pub is_seated : ℕ → ℕ → Appointment → Bool
  is_seated service start a = in_scope a && (a.service_id == service && a.scheduled_at == start)

  abbrev pub Apart : (ℕ → ℕ) → Appointment → Appointment → Type 0
  Apart cap a b = in_scope a ≡ true → in_scope b ≡ true → Compatible cap a b

  -- Where all live appointments are in view, no appointment of the business names a professional.
  abbrev pub IsPlain : Appointment → Type 0
  IsPlain a =
      staff ≡ none → a.tenant_id ≡ tenant → a.business_id ≡ business → a.professional_id ≡ none

  pub record IsNotOverbooked (cap : ℕ → ℕ) (rows : List Appointment) : Type 0 where
    pub keys : Unique (λ (a : Appointment). a.id) rows
    pub lasts : All (λ (a : Appointment). 1 ≤ a.duration_minutes) rows
    pub plain : All IsPlain rows
    pub apart : Pairs (Apart cap) rows
    pub seats :
        (service start : ℕ) → 1 < cap service → count (is_seated service start) rows ≤ cap service

  -- A row that no live row in view stands against, and that finds a place in its session.
  pub record Fits (cap : ℕ → ℕ) (a : Appointment) (rows : List Appointment) : Type 0 where
    pub lasts : 1 ≤ a.duration_minutes
    pub plain : IsPlain a
    pub apart : All (λ x. x.id ≢ a.id → Apart cap x a × Apart cap a x) rows
    pub seat :
        (service start : ℕ)
        → 1 < cap service
        → is_seated service start a ≡ true
        → count (λ x. not (x.id == a.id) && is_seated service start x) rows < cap service

  -- The session of the new row has room, and another session is as full as before.
  seats_bound :
      (cap : ℕ → ℕ) (a : Appointment) (rows : List Appointment) (s t n : ℕ)
      → IsNotOverbooked cap rows
      → Fits cap a rows
      → 1 < cap s
      → n
        ≤ count (λ x. not (x.id == a.id) && is_seated s t x) rows
          + (if is_seated s t a then 1 else 0)
      → n ≤ cap s
  seats_bound cap a rows s t n h f c le = elim (Bool-cases (is_seated s t a)) [
    | inl e ↦
        let le' : n ≤ count (λ x. not (x.id == a.id) && is_seated s t x) rows + 1 = rw e at le in
        omega (arith, f.seat s t c e)
    | inr e ↦
        let le' : n ≤ count (λ x. not (x.id == a.id) && is_seated s t x) rows + 0 = rw e at le in
        omega (arith, h.seats s t c, count_and-le (λ x. not (x.id == a.id)) (is_seated s t) rows)
  ]

  pub update-IsNotOverbooked :
      (cap : ℕ → ℕ) (a : Appointment) (rows : List Appointment)
      → IsNotOverbooked cap rows
      → Fits cap a rows
      → IsNotOverbooked cap (merge (λ (x : Appointment). x.id) a rows)
  update-IsNotOverbooked cap a rows h f = record {
    keys = Unique-merge (λ (x : Appointment). x.id) a rows h.keys;
    lasts =
        All-merge (λ (x : Appointment). x.id) (λ x. 1 ≤ x.duration_minutes) a rows h.lasts f.lasts;
    plain = All-merge (λ (x : Appointment). x.id) IsPlain a rows h.plain f.plain;
    apart = Pairs-merge (λ (x : Appointment). x.id) (Apart cap) a rows h.keys h.apart f.apart;
    seats = λ s t c.
        seats_bound cap a rows s t _ h f c
          (count-merge (λ (x : Appointment). x.id) (is_seated s t) a rows h.keys);
  }

  pub add-IsNotOverbooked :
      (cap : ℕ → ℕ) (a : Appointment) (rows : List Appointment)
      → IsNotOverbooked cap rows
      → All (λ x. a.id ≢ x.id) rows
      → Fits cap a rows
      → IsNotOverbooked cap (rows ++ a ∷ [])
  add-IsNotOverbooked cap a rows h fresh f = record {
    keys = Pairs-append_one (λ x y. y.id ≢ x.id) a rows h.keys fresh;
    lasts = All-append_one (λ x. 1 ≤ x.duration_minutes) a rows h.lasts f.lasts;
    plain = All-append_one IsPlain a rows h.plain f.plain;
    apart = Pairs-append_one (Apart cap) a rows h.apart (both rows fresh f.apart);
    seats = λ s t c. seats_bound cap a rows s t _ h f c (grown s t);
  }
    where
      both :
          (xs : List Appointment)
          → All (λ x. a.id ≢ x.id) xs
          → All (λ x. x.id ≢ a.id → Apart cap x a × Apart cap a x) xs
          → All (λ x. Apart cap x a) xs
      both [] u v = tt
      both (x ∷ xs) u v = ((v.0 (λ e. u.0 (sym e))).0, both xs u.1 v.1)

      others : All (λ x. not (x.id == a.id) ≡ true) rows
      others = All-map rows (λ x (n : a.id ≢ x.id). ground arith) fresh

      grown :
          (s t : ℕ)
          → count (is_seated s t) (rows ++ a ∷ [])
            ≤ count (λ x. not (x.id == a.id) && is_seated s t x) rows
              + (if is_seated s t a then 1 else 0)
      grown s t =
          rw
            (
              count-append (is_seated s t) rows (a ∷ []),
              count_and-eq (λ x. not (x.id == a.id)) (is_seated s t) rows others,
            )
            (omega arith)
