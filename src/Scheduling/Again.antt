-- ===== src/Scheduling/Again.antt =====
-- The idempotency of book_appointment.py: the same request again, at any later time.
use schedule_appointments.Base.{
  ℕ, ◌≡◌, ◌≢◌, refl, sym, subst, ◌∙◌, inl, inr, Bool, true, false, not, Option, none, some, List,
  [], ◌∷◌, ◌++◌, arith, ◌==◌, first, first-append_none, All, All-map, All-tabulate, All-first,
  Pairs-append_one, Option-cases,
}
use schedule_appointments.Base.Text.{text_eq_refl, strip}
use schedule_appointments.Errors.{ok, validation, not_assigned}
use schedule_appointments.Appointment
use schedule_appointments.Appointment.{Appointment}
use schedule_appointments.Service.{Service}
use schedule_appointments.Client
use schedule_appointments.Client.{Client}
use schedule_appointments.Store.Tables.{Db, ◌>>=◌}
use schedule_appointments.Store.Rows.{Unique, merge, first-merge}
use schedule_appointments.Store.Ensures.{
  Ensures, Ensures-bind, Ensures-lift, Ensures-require, Ensures-reject_if, Ensures-check,
  Ensures-map,
}
use schedule_appointments.Store.Appointments
use schedule_appointments.Store.Appointments.{is_seat_of}
use schedule_appointments.Store.Clients
use schedule_appointments.Store.Clients.{is_reached_at}
use schedule_appointments.Store.Professionals
use schedule_appointments.Store.Services
use schedule_appointments.Scheduling.Book.{
  BookInput, BookOutput, Request, book_appointment, book_new, save_booking, ensure_slot_available,
  find_or_create_client, booking_of, client_draft, validate_professional, validate_input, offered,
  is_barred, book_for_client, output_of, slot_of,
}
use schedule_appointments.Slot.{SlotEvaluation, is_bookable}
use schedule_appointments.Scheduling.SoundBook.{get_service, ensure_slot, offered-some}

-- What a booking may write.
abbrev written : List Appointment → List Client → Db → Db
written xs ys db = record db { appointments = xs; clients = ys }

-- The checks on the professional read neither the appointments nor the clients.
professional-again :
    (knows_staff : Bool) (t : ℕ) (i : BookInput) (s : Service) (p : Option ℕ) (db : Db)
    → Ensures (validate_professional knows_staff t i s p db) (λ _ d.
      (d ≡ db)
      × ((xs : List Appointment) (ys : List Client)
          → validate_professional knows_staff t i s p (written xs ys db)
            ≡ ok (tt, written xs ys db)))
unfolding Professionals.get_by_id Services.list_professional_ids
professional-again knows_staff t i s none db = (refl, λ xs ys. refl)
professional-again false t i s (some p) db = (refl, λ xs ys. refl)
professional-again true t i s (some id) db =
    Ensures-require (Professionals.get_by_id t id db) _ _ db _ λ p e.
      Ensures-reject_if (not (p.business_id == i.business_id)) _ _ db _ λ f.
        Ensures-reject_if (not p.is_active) _ _ db _ λ g.
          Ensures-check (is_barred (Services.list_professional_ids t s.id db) id)
            (validation not_assigned) db _ λ h. (refl, λ xs ys. rw (e, f, g, h) refl)

-- The clients after the lookup: `c` is the one that the number finds.
abbrev Finds : ℕ → BookInput → Client → List Client → Type 0
Finds t i c ys =
    (first (is_reached_at t i.client_whatsapp) ys ≡ some c)
    × (is_reached_at t i.client_whatsapp c ≡ true)
    × Unique (λ (x : Client). x.id) ys

created-reached :
    (r : Request) (i : BookInput) (c : Client)
    → strip i.client_whatsapp ≡ i.client_whatsapp
    → Client.create r.client_id r.now (client_draft r.tenant i) ≡ ok c
    → (c.id ≡ r.client_id) × (is_reached_at r.tenant i.client_whatsapp c ≡ true)
unfolding Client.create
created-reached r i c plain h =
    let same = text_eq_refl i.client_whatsapp in ground (arith, plain, same)

client-again :
    (r : Request) (i : BookInput) (db : Db)
    → Unique (λ (x : Client). x.id) db.clients
    → All (λ (x : Client). r.client_id ≢ x.id) db.clients
    → strip i.client_whatsapp ≡ i.client_whatsapp
    → Ensures
        (find_or_create_client r i db)
        (λ c d. (ys : List Client) × (d ≡ written db.appointments ys db) × Finds r.tenant i c ys)
unfolding find_or_create_client Clients.add Clients.get_by_whatsapp
client-again r i db u fresh plain =
    elim (Option-cases (first (is_reached_at r.tenant i.client_whatsapp) db.clients)) [
      | inl missing ↦ rw missing (
          Ensures-lift (Client.create r.client_id r.now (client_draft r.tenant i)) _ db _ λ c made.
            let new = created-reached r i c plain made in
            (
              db.clients ++ c ∷ [],
              refl,
              (
                first-append_none (is_reached_at r.tenant i.client_whatsapp) c db.clients missing
                    new.1,
                new.1,
                Pairs-append_one (λ (x y : Client). y.id ≢ x.id) c db.clients u
                    (All-map db.clients (λ x n e. n (sym new.0 ∙ e)) fresh),
              ),
            ))
      | inr (c, found) ↦
          let reached =
            All-first (λ (_ : Client). Unit {0}) (is_reached_at r.tenant i.client_whatsapp)
              db.clients found (All-tabulate db.clients (λ _. tt)) in
          rw found (db.clients, refl, (found, reached.1, u))
    ]

-- The database after a booking finds the client by the number, and the booked row for the client.
abbrev Repeats : ℕ → BookInput → Service → ℕ → Db → BookOutput → Db → Type 0
Repeats t i s start db out d =
    (xs : List Appointment) × (ys : List Client) × (c : Client) × (a : Appointment) × (d
      ≡ written xs ys db)
    × (first (is_reached_at t i.client_whatsapp) ys ≡ some c)
    × (first (is_seat_of t c.id s.id start) xs ≡ some a)
    × (a.id ≡ out.appointment_id)

book-seat :
    (r : Request) (i : BookInput) (s : Service) (c : Client) (start : ℕ) (a : Appointment)
    → s.id ≡ i.service_id
    → Appointment.book r.appointment_id r.now (booking_of r i s c start) ≡ ok a
    → is_seat_of r.tenant c.id s.id start a ≡ true
unfolding Appointment.book
book-seat r i s c start a same h = ground arith

module _ (r : Request) (i : BookInput) (s : Service) (same : s.id ≡ i.service_id) where
  saved-again :
      (c : Client) (start : ℕ) (e : SlotEvaluation) (db : Db)
      → Finds r.tenant i c db.clients
      → first (is_seat_of r.tenant c.id s.id start) db.appointments ≡ none
      → Ensures (save_booking r i s c start e db) (Repeats r.tenant i s start db)
  unfolding save_booking Appointments.add Clients.update Client.increment_appointment_count
  saved-again c start e db f missing =
      Ensures-lift (Appointment.book r.appointment_id r.now (booking_of r i s c start)) _ db _
        λ a made.
          let counted = Client.increment_appointment_count start r.now c in
          (
            db.appointments ++ a ∷ [],
            merge (λ (x : Client). x.id) counted db.clients,
            counted,
            a,
            refl,
            first-merge (λ (x : Client). x.id) (is_reached_at r.tenant i.client_whatsapp) counted c
                db.clients f.2 f.0 refl f.1,
            first-append_none (is_seat_of r.tenant c.id s.id start) a db.appointments missing
                (book-seat r i s c start a same made),
            refl,
          )

  booked-again :
      (c : Client) (start : ℕ) (db : Db)
      → Finds r.tenant i c db.clients
      → Ensures (book_for_client r i s start c db) (Repeats r.tenant i s start db)
  unfolding book_new ensure_slot_available Appointments.get_active_for_client_at
  booked-again c start db f =
      elim (Option-cases (first (is_seat_of r.tenant c.id s.id start) db.appointments)) [
        | inl new ↦ rw new (
            Ensures-bind (ensure_slot_available r.tenant i s start) (save_booking r i s c start) db
              (λ _ d.
                (d ≡ db)
                × (is_bookable (slot_of r.tenant s i.business_id i.professional_id start db)
                    ≡ true))
              (Repeats r.tenant i s start db) (ensure_slot r.tenant i s start db)
              (λ e d h.
                subst
                  (λ x. Ensures (save_booking r i s c start e x) (Repeats r.tenant i s start db))
                  (sym h.0) (saved-again c start e db f new)))
        | inr (a, old) ↦ rw old (db.appointments, db.clients, c, a, refl, f.0, old, refl)
      ]

-- The same request, later and with other new ids.
abbrev pub later : Request → (now client appointment : ℕ) → Request
later r n c a = record r { now = n; client_id = c; appointment_id = a }

-- A database in which everything is found again answers with the booked row and writes nothing.
repeated :
    (knows_staff : Bool) (r : Request) (i : BookInput) (s : Service) (start : ℕ) (d : Db)
    (c : Client) (a : Appointment) (n new_client new_appointment : ℕ)
    → validate_input i ≡ ok start
    → offered (Services.get_by_id r.tenant i.service_id d) ≡ some s
    → not (s.business_id == i.business_id) ≡ false
    → validate_professional knows_staff r.tenant i s i.professional_id d ≡ ok (tt, d)
    → first (is_reached_at r.tenant i.client_whatsapp) d.clients ≡ some c
    → first (is_seat_of r.tenant c.id s.id start) d.appointments ≡ some a
    → book_appointment knows_staff (later r n new_client new_appointment) i d
      ≡ ok (output_of a none true, d)
unfolding book_appointment find_or_create_client Clients.get_by_whatsapp
    Appointments.get_active_for_client_at
repeated knows_staff r i s start d c a n new_client new_appointment e1 e2 e3 e4 e5 e6 =
    rw (e1, e2, e3, e4, e5, e6) refl

abbrev Answered : Bool → Request → BookInput → BookOutput → Db → Type 0
Answered knows_staff r i out d =
    (n new_client new_appointment : ℕ)
    → (again : BookOutput) × (book_appointment knows_staff (later r n new_client new_appointment) i
          d
        ≡ ok (again, d))
      × (again.appointment_id ≡ out.appointment_id)
      × (again.already_booked ≡ true)

served-again :
    (knows_staff : Bool) (r : Request) (i : BookInput) (s : Service) (start : ℕ) (db : Db)
    → Unique (λ (x : Client). x.id) db.clients
    → All (λ (x : Client). r.client_id ≢ x.id) db.clients
    → strip i.client_whatsapp ≡ i.client_whatsapp
    → validate_input i ≡ ok start
    → offered (Services.get_by_id r.tenant i.service_id db) ≡ some s
    → not (s.business_id == i.business_id) ≡ false
    → ((xs : List Appointment) (ys : List Client)
        → validate_professional knows_staff r.tenant i s i.professional_id (written xs ys db)
          ≡ ok (tt, written xs ys db))
    → Ensures
        ((find_or_create_client r i >>= book_for_client r i s start) db)
        (Answered knows_staff r i)
unfolding Services.get_by_id
served-again knows_staff r i s start db u fresh plain e1 e2 e3 e4 =
    Ensures-bind (find_or_create_client r i) (book_for_client r i s start) db
      (λ c d. (ys : List Client) × (d ≡ written db.appointments ys db) × Finds r.tenant i c ys)
      (Answered knows_staff r i) (client-again r i db u fresh plain)
      λ c d (ys, same, f).
        subst (λ x. Ensures (book_for_client r i s start c x) (Answered knows_staff r i)) (sym same)
          (Ensures-map (book_for_client r i s start c (written db.appointments ys db))
            (Repeats r.tenant i s start (written db.appointments ys db)) (Answered knows_staff r i)
            (booked-again r i s service c start (written db.appointments ys db) f)
            (λ out d' (xs, zs, c', a, now_is, g, h, k) n new_client new_appointment.
              subst
                (λ x.
                  (again : BookOutput) × (book_appointment knows_staff
                      (later r n new_client new_appointment) i x
                    ≡ ok (again, x))
                  × (again.appointment_id ≡ out.appointment_id)
                  × (again.already_booked ≡ true))
                (sym now_is)
                (
                  output_of a none true,
                  repeated knows_staff r i s start (written xs zs db) c' a n new_client
                      new_appointment e1 e2 e3 (e4 xs zs) g h,
                  k,
                  refl,
                )))
  where
    service : s.id ≡ i.service_id
    service = (get_service r.tenant i.service_id s db (offered-some _ s e2)).0

answered :
    (knows_staff : Bool) (r : Request) (i : BookInput) (db : Db)
    → Unique (λ (x : Client). x.id) db.clients
    → All (λ (x : Client). r.client_id ≢ x.id) db.clients
    → strip i.client_whatsapp ≡ i.client_whatsapp
    → Ensures (book_appointment knows_staff r i db) (Answered knows_staff r i)
unfolding book_appointment
answered knows_staff r i db u fresh plain = Ensures-lift (validate_input i) _ db _ λ start e1.
    Ensures-require (offered (Services.get_by_id r.tenant i.service_id db)) _ _ db _ λ s e2.
      Ensures-reject_if (not (s.business_id == i.business_id)) _ _ db _ λ e3.
        Ensures-bind (validate_professional knows_staff r.tenant i s i.professional_id)
          (λ _. find_or_create_client r i >>= book_for_client r i s start) db
          (λ _ d.
            (d ≡ db)
            × ((xs : List Appointment) (ys : List Client)
                → validate_professional knows_staff r.tenant i s i.professional_id
                    (written xs ys db)
                  ≡ ok (tt, written xs ys db)))
          (Answered knows_staff r i)
          (professional-again knows_staff r.tenant i s i.professional_id db)
          λ _ d e4.
            subst
              (λ x.
                Ensures ((find_or_create_client r i >>= book_for_client r i s start) x)
                  (Answered knows_staff r i))
              (sym e4.0) (served-again knows_staff r i s start db u fresh plain e1 e2 e3 e4.1)

-- Repeating a booking that succeeded, later and with other new ids, answers with the same appointment
-- as already booked and writes nothing. It is assumed that the ids of the clients differ from each
-- other and from the new one, and that the number has no blanks around it.
pub book_twice :
    (knows_staff : Bool) (r : Request) (i : BookInput) (db db' : Db) (out : BookOutput)
    (n new_client new_appointment : ℕ)
    → Unique (λ (x : Client). x.id) db.clients
    → All (λ (x : Client). r.client_id ≢ x.id) db.clients
    → strip i.client_whatsapp ≡ i.client_whatsapp
    → book_appointment knows_staff r i db ≡ ok (out, db')
    → (again : BookOutput) × (book_appointment knows_staff
          (later r n new_client new_appointment)
          i
          db'
        ≡ ok (again, db'))
      × (again.appointment_id ≡ out.appointment_id)
      × (again.already_booked ≡ true)
book_twice knows_staff r i db db' out n new_client new_appointment u fresh plain h =
    subst (λ x. Ensures x (Answered knows_staff r i)) h (answered knows_staff r i db u fresh plain)
      n new_client new_appointment
