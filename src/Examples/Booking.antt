-- ===== src/Examples/Booking.antt =====
-- Bookings of a class for two, and the search for its slots.
use mathlib.Core.List.{Permᴰ}
use schedule_appointments.Base.{
  ◌≡◌, refl, ◌↔◌, true, false, some, none, List, [], ◌∷◌, arith, ◌+◌, map,
}
use schedule_appointments.Base.Text.{codes}
use schedule_appointments.Appointment.{Appointment, pending, minutes}
use schedule_appointments.Slot.{Candidate, evaluate_slot, is_bookable}
use schedule_appointments.Slot.Spec.{
  Admits, is_bookable_iff, evaluate_slot-perm, closed_form, evaluate_slot-closed_form,
}
use schedule_appointments.Errors.{ok}
use schedule_appointments.Store.Tables.{Db}
use schedule_appointments.Scheduling.{BookOutput, book_appointment}
use schedule_appointments.Scheduling.Again.{later, book_twice}
use schedule_appointments.Scheduling.Sound.{IsSound}
use schedule_appointments.Scheduling.NoOverbooking.{
  Operation, book, cancel, run_all, ProvidesAll, no_overbooking,
}
use schedule_appointments.Examples.Data.{empty_db, seat, ask, request, ten, now, machine}

abbrev day : List Operation
day =
    book true (request 50 1) (ask (codes "Ana") (codes "+591"))
    ∷ book true (request 51 2) (ask (codes "Luz") (codes "+592"))
    ∷ book true (request 52 3) (ask (codes "Eva") (codes "+593"))
    ∷ cancel 1 now 1 none
    ∷ []

ids_after : map (λ (a : Appointment). a.id) (run_all day empty_db).appointments ≡ 1 ∷ 2 ∷ []
unfolding run_all machine
ids_after = refl

empty-IsSound : IsSound 1 10 none empty_db
empty-IsSound = record {
  keys = tt;
  lasts = tt;
  plain = tt;
  apart = tt;
  seats = λ s t c. omega arith;
}

no_overbooking_example : IsSound 1 10 none (run_all day empty_db)
unfolding run_all ProvidesAll machine
no_overbooking_example =
    no_overbooking 1 10 none day empty_db empty-IsSound (
      (tt, λ _ _ _. refl),
      ((omega arith, λ _ _ _. refl), ((omega arith, λ _ _ _. refl), (tt, tt))),
    )

abbrev class_at_ten : Candidate
class_at_ten = record {
  start = ten;
  stop = ten + minutes 60;
  service_id = 100;
  capacity = 2;
  caps = (100, 2) ∷ [];
  exclude = none;
}

-- One of two places is taken.
one_place_left :
    evaluate_slot class_at_ten (seat ∷ [])
    ≡ record { start = ten; capacity = 2; remaining = 1; blocked = false }
unfolding machine
one_place_left = refl

is_bookable_iff_example :
    (is_bookable (evaluate_slot class_at_ten (seat ∷ [])) ≡ true) ↔ Admits class_at_ten (seat ∷ [])
is_bookable_iff_example = is_bookable_iff class_at_ten (seat ∷ [])

abbrev cut : Appointment
cut = record seat {
  id = 2;
  service_id = 101;
  scheduled_at = ten + minutes 30;
  duration_minutes = 30;
}

evaluate_slot-perm_example :
    evaluate_slot class_at_ten (seat ∷ cut ∷ []) ≡ evaluate_slot class_at_ten (cut ∷ seat ∷ [])
evaluate_slot-perm_example =
    evaluate_slot-perm class_at_ten (seat ∷ cut ∷ []) (cut ∷ seat ∷ []) (Permᴰ.swap refl refl)

evaluate_slot-closed_form_example :
    evaluate_slot class_at_ten (seat ∷ cut ∷ []) ≡ closed_form class_at_ten (seat ∷ cut ∷ [])
evaluate_slot-closed_form_example = evaluate_slot-closed_form class_at_ten (seat ∷ cut ∷ [])

-- The answer to a booking of the class by Ana, and the database after it.
abbrev ana : BookOutput
ana = record {
  appointment_id = 1;
  business_id = 10;
  service_id = 100;
  client_id = 50;
  professional_id = none;
  scheduled_at = ten;
  duration_minutes = 60;
  status = pending;
  ends_at = ten + minutes 60;
  spots_left = some 1;
  already_booked = false;
}

abbrev with_ana : Db
with_ana = run_all (book true (request 50 1) (ask (codes "Ana") (codes "+591")) ∷ []) empty_db

book_twice_example :
    (again : BookOutput) × (book_appointment true
        (later (request 50 1) ten 60 9)
        (ask (codes "Ana") (codes "+591"))
        with_ana
      ≡ ok (again, with_ana))
    × (again.appointment_id ≡ 1)
    × (again.already_booked ≡ true)
unfolding book_appointment run_all machine
book_twice_example =
    book_twice true (request 50 1) (ask (codes "Ana") (codes "+591")) empty_db with_ana ana ten 60 9
      tt tt refl refl
