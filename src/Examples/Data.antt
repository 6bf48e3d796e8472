-- ===== src/Examples/Data.antt =====
-- A small business: a haircut for one, a class for two, and its hours.
use mathlib.Core.List.{reverse}
use schedule_appointments.Base.{ℕ, true, false, none, some, [], ◌∷◌, ◌+◌}
use schedule_appointments.Base.Clock.{aware, days}
use schedule_appointments.Base.Text.{Text, codes, strip, text_eq}
use schedule_appointments.Appointment
use schedule_appointments.Client
use schedule_appointments.Slot.{is_bookable, evaluate_slot, capacity_of}
use schedule_appointments.Store.Rows.{merge}
use schedule_appointments.Store.Appointments
use schedule_appointments.Store.Services
use schedule_appointments.Store.Clients
use schedule_appointments.Store.Professionals
use schedule_appointments.Store.Plans
use schedule_appointments.Store.Memberships
use schedule_appointments.Membership
use schedule_appointments.Appointment.{Appointment, pending, minutes}
use schedule_appointments.Service.{Service}
use schedule_appointments.Hours.{BusinessHour}
use schedule_appointments.Store.Tables.{Db}
use schedule_appointments.Scheduling.{BookInput, Request}

-- A Monday at midnight, in the year 2026.
abbrev pub monday : ℕ
monday = 739_606

abbrev pub ten : ℕ
ten = days monday + minutes 600

abbrev pub now : ℕ
now = days monday

abbrev pub haircut : Service
haircut = record {
  id = 101;
  tenant_id = 1;
  business_id = 10;
  name = codes "Corte";
  description = none;
  duration_minutes = 30;
  price = some 1500;
  capacity = 1;
  is_active = true;
  created_at = 0;
  updated_at = 0;
}

abbrev pub yoga : Service
yoga = record haircut { id = 100; name = codes "Yoga"; duration_minutes = 60; capacity = 2 }

abbrev pub morning : BusinessHour
morning = record {
  id = 1;
  tenant_id = 1;
  business_id = 10;
  day_of_week = 0;
  open_at = minutes 540;
  close_at = minutes 720;
  is_closed = false;
  created_at = 0;
  updated_at = 0;
}

abbrev pub empty_db : Db
empty_db = record {
  appointments = [];
  services = haircut ∷ yoga ∷ [];
  assignments = [];
  clients = [];
  professionals = [];
  hours = record { hour = morning; sequence = 1 } ∷ [];
  plans = [];
  plan_services = [];
  memberships = [];
  conversations = [];
  messages = [];
  transfers = [];
  tenants = [];
  users = [];
  businesses = [];
  arrange = reverse;
}

abbrev pub seat : Appointment
seat = record {
  id = 1;
  tenant_id = 1;
  business_id = 10;
  service_id = 100;
  client_id = 50;
  scheduled_at = ten;
  duration_minutes = 60;
  status = pending;
  professional_id = none;
  notes = none;
  cancelled_reason = none;
  cancelled_at = none;
  reminder_sent_at = none;
  amount_charged = none;
  completed_at = none;
  created_at = 0;
  updated_at = 0;
}

abbrev pub ask : Text → Text → BookInput
ask name number = record {
  business_id = 10;
  service_id = 100;
  scheduled_at = aware ten;
  client_name = name;
  client_whatsapp = number;
  professional_id = none;
  notes = none;
  client_email = none;
}

abbrev pub request : ℕ → ℕ → Request
request client appointment = record {
  tenant = 1;
  now = now;
  client_id = client;
  appointment_id = appointment;
}

-- All that a booking computes with: a test that names this unfolds it.
unfoldable pub machine : Unit {0}
unfolding Appointments.get_by_id strip text_eq Services.get_by_id Clients.get_by_whatsapp
    Client.create Appointments.get_active_for_client_at Clients.add is_bookable evaluate_slot
    Appointments.list_active_in_range Appointment.book Clients.update Appointments.add merge
    Client.increment_appointment_count Appointments.update Appointment.cancel Appointment.complete
    Appointment.reschedule capacity_of Services.get_capacity_map Services.list_professional_ids
    Services.lock_for_update Professionals.get_by_id Clients.get_by_id Plans.get_by_id
    Memberships.get_by_id Memberships.get_current_for_client Memberships.newest_first
    Memberships.insert_newest Memberships.add Memberships.update Membership.grant Membership.renew
    Membership.freeze Membership.unfreeze Membership.cancel
machine = tt
