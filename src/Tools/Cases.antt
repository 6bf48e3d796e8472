-- ===== src/Tools/Cases.antt =====
-- The use cases that the tools call leave the messages alone.
use schedule_appointments.Base.{
  ℕ, ◌≡◌, refl, sym, subst, ◌∙◌, inl, inr, Bool, not, Option, none, ◌==◌, Option-cases,
}
use schedule_appointments.Base.Text.{Text}
use schedule_appointments.Base.Clock.{aware}
use schedule_appointments.Errors.{Result}
use schedule_appointments.Appointment
use schedule_appointments.Client
use schedule_appointments.Client.{Client}
use schedule_appointments.Service.{Service}
use schedule_appointments.Store.Tables.{Db, ◌>>=◌}
use schedule_appointments.Store.Ensures.{
  Ensures, Ensures-bind, Ensures-lift, Ensures-require, Ensures-reject_if, Ensures-map,
}
use schedule_appointments.Store.Appointments
use schedule_appointments.Store.Clients
use schedule_appointments.Store.Services
use schedule_appointments.Scheduling.{
  Request, BookInput, book_appointment, book_new, book_for_client, save_booking, booking_of,
  ensure_slot_available, find_or_create_client, client_draft, validate_input, validate_professional,
  offered, admit, reschedule_appointment, save_move, new_slot_of, changed, known_capacity,
  cancel_appointment,
}
use schedule_appointments.Scheduling.SoundBook.{admit-Ensures, ensure_slot, professional-Ensures}
use schedule_appointments.Slot.{SlotEvaluation}

-- A database with the messages of another.
abbrev pub SameMessages : Db → Db → Type 0
SameMessages db d = d.messages ≡ db.messages

save_booking-SameMessages :
    (r : Request) (i : BookInput) (s : Service) (c : Client) (start : ℕ) (e : SlotEvaluation)
    (db : Db)
    → Ensures (save_booking r i s c start e db) (λ _ d. SameMessages db d)
unfolding save_booking Appointments.add Clients.update
save_booking-SameMessages r i s c start e db =
    Ensures-lift (Appointment.book r.appointment_id r.now (booking_of r i s c start)) _ db _
      λ a _. refl

-- A step that leaves the database as it is, and then one that keeps the messages.
after_same :
    {A B : Type 0} (m : Db → Result (A × Db)) (f : A → Db → Result (B × Db)) (db : Db)
    → Ensures (m db) (λ _ d. d ≡ db)
    → ((a : A) → Ensures (f a db) (λ _ d. SameMessages db d))
    → Ensures ((m >>= f) db) (λ _ d. SameMessages db d)
after_same m f db h k =
    Ensures-bind m f db (λ _ d. d ≡ db) (λ _ d. SameMessages db d) h
      λ a d e. subst (λ x. Ensures (f a x) (λ _ d. SameMessages db d)) (sym e) (k a)

book_for_client-SameMessages :
    (r : Request) (i : BookInput) (s : Service) (start : ℕ) (c : Client) (db : Db)
    → Ensures (book_for_client r i s start c db) (λ _ d. SameMessages db d)
unfolding book_new
book_for_client-SameMessages r i s start c db =
    elim (Option-cases (Appointments.get_active_for_client_at r.tenant c.id s.id start db)) [
      | inl new ↦ rw new (
          after_same (ensure_slot_available r.tenant i s start) (save_booking r i s c start) db
            (Ensures-map (ensure_slot_available r.tenant i s start db) _ (λ _ d. d ≡ db)
              (ensure_slot r.tenant i s start db) (λ _ d h. h.0))
            (λ e. save_booking-SameMessages r i s c start e db))
      | inr (a, old) ↦ rw old refl
    ]

find_or_create_client-SameMessages :
    (r : Request) (i : BookInput) (db : Db)
    → Ensures (find_or_create_client r i db) (λ _ d. SameMessages db d)
unfolding find_or_create_client Clients.add
find_or_create_client-SameMessages r i db =
    elim (Option-cases (Clients.get_by_whatsapp r.tenant i.client_whatsapp db)) [
      | inl missing ↦ rw missing (
          Ensures-lift (Client.create r.client_id r.now (client_draft r.tenant i)) _ db _
            (λ c _. refl))
      | inr (c, found) ↦ rw found refl
    ]

pub book_appointment-SameMessages :
    (knows_staff : Bool) (r : Request) (i : BookInput) (db : Db)
    → Ensures (book_appointment knows_staff r i db) (λ _ d. SameMessages db d)
unfolding book_appointment
book_appointment-SameMessages knows_staff r i db = Ensures-lift (validate_input i) _ db _ λ start _.
    Ensures-require (offered (Services.get_by_id r.tenant i.service_id db)) _ _ db _ λ s _.
      Ensures-reject_if (not (s.business_id == i.business_id)) _ _ db _ λ _.
        after_same (validate_professional knows_staff r.tenant i s i.professional_id) _ db
          (professional-Ensures r.tenant i.business_id none knows_staff i s i.professional_id
            r.tenant db)
          λ _.
            Ensures-bind (find_or_create_client r i) (book_for_client r i s start) db
              (λ _ d. SameMessages db d) (λ _ d. SameMessages db d)
              (find_or_create_client-SameMessages r i db)
              λ c d e.
                Ensures-map (book_for_client r i s start c d) _ _
                  (book_for_client-SameMessages r i s start c d) (λ _ d' h. h ∙ e)

pub reschedule_appointment-SameMessages :
    (knows_services : Bool) (tenant now id start : ℕ) (db : Db)
    → Ensures
        (reschedule_appointment knows_services tenant now id (aware start) db)
        (λ _ d. SameMessages db d)
unfolding reschedule_appointment save_move Appointments.update
reschedule_appointment-SameMessages knows_services tenant now id start db =
    Ensures-require (Appointments.get_by_id tenant id db) _ _ db _ λ a _.
      let capacity =
        known_capacity knows_services (Services.lock_for_update tenant a.service_id db) in
      let e = new_slot_of knows_services tenant a start db in
      after_same (admit capacity e) (save_move now capacity start a) db
        (Ensures-map (admit capacity e db) _ (λ _ d. d ≡ db) (admit-Ensures capacity e db)
          (λ _ d h. h.0))
        λ ready. Ensures-lift (changed (Appointment.reschedule start none now a)) _ db _ λ b _. refl

pub cancel_appointment-SameMessages :
    (tenant now id : ℕ) (reason : Option Text) (db : Db)
    → Ensures (cancel_appointment tenant now id reason db) (λ _ d. SameMessages db d)
unfolding cancel_appointment Appointments.update
cancel_appointment-SameMessages tenant now id reason db =
    Ensures-require (Appointments.get_by_id tenant id db) _ _ db _
      λ a _. Ensures-lift (changed (Appointment.cancel reason now a)) _ db _ λ b _. refl
