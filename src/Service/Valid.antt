-- ===== src/Service/Valid.antt =====
-- What every service that was created and edited satisfies.
use schedule_appointments.Base.{ℕ, ◌≤◌, ◌≡◌, false, List, [], ◌∷◌, arith, is_empty}
use schedule_appointments.Errors.{ok}
use schedule_appointments.Service
use schedule_appointments.Service.{Service}

-- A service has a name, lasts a minute or more and has a place or more.
pub record IsValid (s : Service) : Type 0 where
  pub named : is_empty s.name ≡ false
  pub lasts : 1 ≤ s.duration_minutes
  pub seats : 1 ≤ s.capacity

-- The calls that the management routes make on a service.
pub data Edit : Type 0 where
  update : Service.Changes → ℕ → Edit
  deactivate activate : ℕ → Edit

abbrev pub edit : Edit → Service → Service
edit (update c now) s = (Service.update c now s).1
edit (deactivate now) s = Service.deactivate now s
edit (activate now) s = Service.activate now s

abbrev pub edit_all : List Edit → Service → Service
edit_all [] s = s
edit_all (e ∷ es) s = edit_all es (edit e s)

create-IsValid :
    (new_id now : ℕ) (d : Service.Draft) {s : Service}
    → Service.create new_id now d ≡ ok s
    → IsValid s
unfolding Service.create
create-IsValid new_id now d h = ground arith

edit-IsValid : (e : Edit) (s : Service) → IsValid s → IsValid (edit e s)
unfolding Service.update Service.deactivate Service.activate
edit-IsValid (update c now) s h = ground arith
edit-IsValid (deactivate now) s h = ground arith
edit-IsValid (activate now) s h = ground arith

edit_all-IsValid : (es : List Edit) (s : Service) → IsValid s → IsValid (edit_all es s)
edit_all-IsValid [] s h = h
edit_all-IsValid (e ∷ es) s h = edit_all-IsValid es (edit e s) (edit-IsValid e s h)

-- A created service, after any edits, refused ones included, has a name, lasts a minute or more and
-- has a capacity of one or more.
pub service-IsValid :
    (new_id now : ℕ) (d : Service.Draft) (s : Service) (es : List Edit)
    → Service.create new_id now d ≡ ok s
    → IsValid (edit_all es s)
service-IsValid new_id now d s es h = edit_all-IsValid es s (create-IsValid new_id now d h)
