-- ===== src/Scheduling/NoOverbooking.antt =====
-- Runs of the use cases that write appointments: book_appointment.py, reschedule_appointment.py,
-- cancel_appointment.py and complete_appointment.py, each in a transaction of its own.
use schedule_appointments.Base.{ℕ, Bool, Option, List, [], ◌∷◌}
use schedule_appointments.Base.Int.{ℤ}
use schedule_appointments.Base.Text.{Text}
use schedule_appointments.Base.Clock.{DateTime}
use schedule_appointments.Errors.{Result, ok, err}
use schedule_appointments.Store.Tables.{Db}
use schedule_appointments.Store.Ensures.{Ensures}
use schedule_appointments.Scheduling.Book.{BookInput, Request, book_appointment}
use schedule_appointments.Scheduling.Move.{reschedule_appointment}
use schedule_appointments.Scheduling.Close.{cancel_appointment, complete_appointment}
use schedule_appointments.Scheduling.Sound.{IsSound}
use schedule_appointments.Scheduling.SoundBook.{Provides, book_appointment-IsSound}
use schedule_appointments.Scheduling.SoundMove.{
  reschedule_appointment-IsSound, cancel_appointment-IsSound, complete_appointment-IsSound,
}

-- A request of any tenant.
pub data Operation : Type 0 where
  book : Bool → Request → BookInput → Operation
  move : Bool → ℕ → ℕ → ℕ → DateTime → Operation
  cancel : ℕ → ℕ → ℕ → Option Text → Operation
  complete : ℕ → ℕ → ℕ → ℤ → Option Text → Operation

-- What a transaction leaves: an exception rolls it back.
unfoldable pub committed : {A : Type 0} → Db → Result (A × Db) → Db
committed db (ok (_, db')) = db'
committed db (err _) = db

unfoldable pub run : Operation → Db → Db
unfolding committed book_appointment reschedule_appointment cancel_appointment complete_appointment
run (book knows_staff r i) db = committed db (book_appointment knows_staff r i db)
run (move knows_services tenant now id start) db =
    committed db (reschedule_appointment knows_services tenant now id start db)
run (cancel tenant now id reason) db = committed db (cancel_appointment tenant now id reason db)
run (complete tenant now id amount note) db =
    committed db (complete_appointment tenant now id amount note db)

unfoldable pub run_all : List Operation → Db → Db
unfolding run
run_all [] db = db
run_all (o ∷ os) db = run_all os (run o db)

committed-Ensures :
    {A : Type 0} (P : Db → Type 0) (db : Db) (r : Result (A × Db))
    → P db
    → Ensures r (λ _ db'. P db')
    → P (committed db r)
unfolding committed
committed-Ensures P db (ok (_, db')) p h = h
committed-Ensures P db (err _) p h = p

module _ (tenant business : ℕ) (staff : Option ℕ) where
  -- What each booking of a run needs, in the database that it meets.
  abbrev ProvidesOne : Operation → Db → Type 0
  ProvidesOne (book _ r i) db = Provides tenant business staff r i db
  ProvidesOne _ db = Unit

  unfoldable pub ProvidesAll : List Operation → Db → Type 0
  ProvidesAll [] db = Unit
  ProvidesAll (o ∷ os) db = ProvidesOne o db × ProvidesAll os (run o db)

  run-IsSound :
      (o : Operation) (db : Db)
      → IsSound tenant business staff db
      → ProvidesOne o db
      → IsSound tenant business staff (run o db)
  unfolding run
  run-IsSound (book knows_staff r i) db w p =
      committed-Ensures (IsSound tenant business staff) db _ w
        (book_appointment-IsSound tenant business staff knows_staff r i db w p)
  run-IsSound (move knows_services own now id start) db w p =
      committed-Ensures (IsSound tenant business staff) db _ w
        (reschedule_appointment-IsSound tenant business staff knows_services own now id start db w)
  run-IsSound (cancel own now id reason) db w p =
      committed-Ensures (IsSound tenant business staff) db _ w
        (cancel_appointment-IsSound tenant business staff own now id reason db w)
  run-IsSound (complete own now id amount note) db w p =
      committed-Ensures (IsSound tenant business staff) db _ w
        (complete_appointment-IsSound tenant business staff own now id amount note db w)

  -- Whatever sequence of bookings, moves, cancellations and completions runs, of any tenants and
  -- with any answers, the live appointments of the business (all of them, or those with one
  -- professional) stay not overbooked if they were so before: two of them overlap only where both
  -- services are group classes, and then not in two sessions of one class, and no session of a
  -- class holds more of them than the class has places. It is assumed that each booking gets an id
  -- that no row has, and, where all live appointments are in view, that no booking names a
  -- professional of the business.
  pub no_overbooking :
      (os : List Operation) (db : Db)
      → IsSound tenant business staff db
      → ProvidesAll os db
      → IsSound tenant business staff (run_all os db)
  unfolding run_all ProvidesAll
  no_overbooking [] db w p = w
  no_overbooking (o ∷ os) db w p = no_overbooking os (run o db) (run-IsSound o db w p.0) p.1
