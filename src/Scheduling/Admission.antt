-- ===== src/Scheduling/Admission.antt =====
-- A slot that the occupancy rules admit fits among the rows: from an evaluation over the rows that
-- the query of the booked appointments returns, to all rows of the table.
use schedule_appointments.Base.{
  ℕ, ◌≤◌, ◌<◌, ◌≡◌, ◌≢◌, sym, ap, ◌∙◌, inl, inr, Bool, true, false, ◌&&◌, not, Option, none, List,
  arith, ◌==◌, ltb, same_id, keep, count, All, All-map, All-keep, All-zip, count-le-keep-keep,
  count-eq-zero, Bool-cases, Option-cases,
}
use native.Mathlib.Decide.{dec_lt}
use schedule_appointments.Appointment.{Appointment, ends_at}
use schedule_appointments.Slot.{Candidate, capacity_of}
use schedule_appointments.Slot.Spec.{Tolerates, Admits, seats, overlaps_iff}
use schedule_appointments.Store.Tables.{Db}
use schedule_appointments.Store.Appointments.{is_selected, list_active_in_range}
use schedule_appointments.Scheduling.Occupancy.{
  in_scope, is_seated, IsPlain, IsNotOverbooked, Fits, Meet,
}

-- The candidate is evaluated for the row `a`, with the capacities that `cap` gives.
pub record IsFor (cap : ℕ → ℕ) (c : Candidate) (a : Appointment) : Type 0 where
  pub start : c.start ≡ a.scheduled_at
  pub stop : c.stop ≡ ends_at a
  pub service : c.service_id ≡ a.service_id
  pub others : (id : ℕ) → id ≢ a.id → same_id c.exclude id ≡ false
  pub capacity : 1 < c.capacity → c.capacity ≡ cap a.service_id
  pub lasts : 1 ≤ a.duration_minutes

-- The capacities that the candidate carries are those of `cap`, at least where they exceed one.
abbrev pub KnowsCapacity : (ℕ → ℕ) → Candidate → Appointment → Type 0
KnowsCapacity cap c x = 1 < capacity_of c.caps x.service_id → 1 < cap x.service_id

module _ (tenant business : ℕ) (staff : Option ℕ) (cap : ℕ → ℕ) (c : Candidate)
    (a : Appointment) where
  -- The query's two tests, for the professional of the row.
  abbrev chosen : Appointment → Bool
  chosen = is_selected tenant business c.stop a.professional_id

  abbrev unfinished : Appointment → Bool
  unfinished x = ltb c.start (ends_at x)

  abbrev Judged : Appointment → Type 0
  Judged x = chosen x ≡ true → unfinished x ≡ true → Tolerates c x × KnowsCapacity cap c x

  chosen_row :
      (x : Appointment)
      → IsPlain tenant business staff a
      → in_scope tenant business staff a ≡ true
      → in_scope tenant business staff x ≡ true
      → x.scheduled_at < c.stop
      → chosen x ≡ true
  chosen_row x plain sa sx lt = elim (Option-cases staff) [
    | inl all ↦
        let p : a.professional_id ≡ none = plain all (ground arith) (ground arith) in ground arith
    | inr (q, one) ↦ ground arith
  ]

  apart_row :
      (x : Appointment)
      → IsFor cap c a
      → IsPlain tenant business staff a
      → Judged x
      → x.id ≢ a.id
      → in_scope tenant business staff a ≡ true
      → in_scope tenant business staff x ≡ true
      → Meet x a
      → (1 < cap x.service_id)
        × (1 < cap a.service_id)
        × (x.service_id ≡ a.service_id → x.scheduled_at ≡ a.scheduled_at)
  apart_row x f plain j ne sa sx m =
      let k = j (chosen_row x plain sa sx (omega (arith, f.stop))) (ground (arith, f.start)) in
      let t =
        k.0 (
          (λ e. ground (arith, f.others x.id ne)),
          omega (arith, f.start),
          omega (arith, f.stop),
        ) in
      (k.1 t.1, omega (arith, f.capacity t.0), λ e. t.2 (e ∙ sym f.service) ∙ f.start)

  seated_row :
      (s t : ℕ) (x : Appointment)
      → IsFor cap c a
      → IsPlain tenant business staff a
      → 1 ≤ x.duration_minutes
      → x.id ≢ a.id
      → is_seated tenant business staff s t a ≡ true
      → is_seated tenant business staff s t x ≡ true
      → (chosen x ≡ true) × (unfinished x ≡ true) × (seats c x ≡ true)
  seated_row s t x f plain lx ne sa sx =
      let here : x.scheduled_at ≡ a.scheduled_at = ground arith in
      let same : x.service_id ≡ a.service_id = ground arith in
      let starts : x.scheduled_at < c.stop = omega (arith, f.stop, f.lasts) in
      (
        chosen_row x plain (ground arith) (ground arith) starts,
        ground (arith, f.start),
        ground (arith, f.start, f.service, f.others x.id ne),
      )

  abbrev booked : Db → List Appointment
  booked = list_active_in_range tenant business c.start c.stop a.professional_id

  judged :
      (db : Db)
      → All (Tolerates c) (booked db)
      → All (KnowsCapacity cap c) (booked db)
      → All Judged db.appointments
  unfolding list_active_in_range
  judged db h k =
      All-keep (λ x. unfinished x ≡ true → Tolerates c x × KnowsCapacity cap c x) chosen
        db.appointments
        (All-keep (λ x. Tolerates c x × KnowsCapacity cap c x) unfinished
          (keep chosen db.appointments)
          (All-zip (Tolerates c) (KnowsCapacity cap c) (booked db) h k))

  -- Another row of the session of `a`.
  abbrev rival : ℕ → ℕ → Appointment → Bool
  rival s t x = not (x.id == a.id) && is_seated tenant business staff s t x

  rival_row :
      (s t : ℕ) (x : Appointment)
      → IsFor cap c a
      → IsPlain tenant business staff a
      → 1 ≤ x.duration_minutes
      → is_seated tenant business staff s t a ≡ true
      → rival s t x ≡ true
      → (chosen x ≡ true) × (unfinished x ≡ true) × (seats c x ≡ true)
  rival_row s t x f plain lx sa r =
      seated_row s t x f plain lx (λ e. ground arith) sa (ground arith)

  -- A class has room for the new row among its rivals.
  room_left :
      (db : Db) (s t : ℕ)
      → IsFor cap c a
      → IsPlain tenant business staff a
      → All (λ (x : Appointment). 1 ≤ x.duration_minutes) db.appointments
      → Admits c (booked db)
      → All Judged db.appointments
      → 1 < cap s
      → is_seated tenant business staff s t a ≡ true
      → count (rival s t) db.appointments < cap s
  unfolding list_active_in_range
  room_left db s t f plain ls h j big sa = elim (dec_lt 1 c.capacity) [
    | yes group ↦
        let few =
          count-le-keep-keep (rival s t) chosen unfinished (seats c) db.appointments
            (All-map db.appointments (λ x lx r. rival_row s t x f plain lx sa r) ls) in
        let service : a.service_id ≡ s = ground arith in
        let here : c.capacity ≡ cap s = f.capacity group ∙ ap cap service in
        omega (arith, few, h.1 group)
    | no one ↦
        let none_there = count-eq-zero (rival s t) db.appointments (
          All-map db.appointments (λ x both. no_rival one x both.0 both.1)
            (All-zip Judged (λ x. 1 ≤ x.duration_minutes) db.appointments j ls)) in
        omega (arith, none_there)
  ]
    where
      no_rival :
          ¬ (1 < c.capacity)
          → (x : Appointment) → Judged x
          → 1 ≤ x.duration_minutes
          → rival s t x ≡ false
      no_rival one x j lx = elim (Bool-cases (rival s t x)) [
        | inl r ↦
            let k = rival_row s t x f plain lx sa r in
            absurd (one (((j k.0 k.1).0 ((overlaps_iff c x).0 (ground (arith, k.2)))).0))
        | inr r ↦ r
      ]

  -- A row whose slot the rules admit fits among the rows of a table that is not overbooked.
  pub admitted-Fits :
      (db : Db)
      → IsNotOverbooked tenant business staff cap db.appointments
      → IsFor cap c a
      → IsPlain tenant business staff a
      → Admits c (booked db)
      → All (KnowsCapacity cap c) (booked db)
      → Fits tenant business staff cap a db.appointments
  admitted-Fits db w f plain h k =
      let j = judged db h.0 k in
      record {
        lasts = f.lasts;
        plain = plain;
        apart =
            All-map db.appointments
              (λ x jx ne. (
                λ sx sa m. apart_row x f plain jx ne sa sx m,
                λ sa sx m.
                    let r = apart_row x f plain jx ne sa sx (m.1, m.0) in
                    (r.1, r.0, λ e. sym (r.2 (sym e))),
              ))
              j;
        seat = λ s t big sa. room_left db s t f plain w.lasts h j big sa;
      }
