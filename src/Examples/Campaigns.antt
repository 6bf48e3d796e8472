-- ===== src/Examples/Campaigns.antt =====
-- Two cycles of the campaigns over a membership that ends soon and a client who stays away.
use schedule_appointments.Base.{ℕ, ◌+◌, ◌≡◌, refl, true, some, none, List, [], ◌∷◌, map, Pairs}
use schedule_appointments.Base.Text.{codes}
use schedule_appointments.Slug.{decimal}
use schedule_appointments.Client.{Client, whatsapp}
use schedule_appointments.Business.{Business}
use schedule_appointments.Store.Tables.{Db}
use schedule_appointments.Campaigns
use schedule_appointments.Campaigns.{Settings, Outgoing, delivered, raised}
use schedule_appointments.Campaigns.Claimed.{Differ}
use schedule_appointments.Campaigns.Once.{Cycle, run_cycles, cycles-Differ}
use schedule_appointments.Examples.Data.{empty_db, now}

-- All that a cycle computes with: a test that names this unfolds it.
unfoldable campaign : Unit {0}
unfolding decimal Campaigns.same_key Campaigns.claim_send Campaigns.send_campaign_message
    Campaigns.send_expiring Campaigns.run_expiring_memberships Campaigns.send_winback
    Campaigns.run_winback Campaigns.run_campaigns_once
campaign = tt

abbrev gym : Business
gym = record {
  id = 10;
  tenant_id = 1;
  name = codes "Gym";
  slug = codes "gym";
  description = none;
  phone = codes "700";
  email = none;
  address = none;
  timezone = codes "UTC";
  is_active = true;
  whatsapp_phone_number_id = some (codes "55");
  whatsapp_waba_id = none;
  whatsapp_access_token = none;
  whatsapp_app_secret = none;
  owner_whatsapp = none;
  facebook_page_id = none;
  facebook_page_access_token = none;
  instagram_account_id = none;
  meta_app_secret = none;
  created_at = 0;
  updated_at = 0;
}

abbrev member : Client
member = record {
  id = 5;
  tenant_id = 1;
  whatsapp_number = codes "591";
  channel = whatsapp;
  external_id = codes "591";
  name = codes "Eva";
  email = none;
  phone = none;
  notes = none;
  is_active = true;
  appointment_count = 0;
  last_appointment_at = none;
  last_interaction_at = none;
  created_at = 0;
  updated_at = 0;
}

abbrev db : Db
db = record empty_db { businesses = gym ∷ []; clients = member ∷ [] }

abbrev settings : Settings
settings = record {
  expiring_days = 3;
  inactive_days = 30;
  daily_send_cap = 50;
  template_membership_expiring = codes "ends";
  template_winback = codes "back";
  week = λ t. 27;
}

-- The network fails at the first message.
abbrev cycle : ℕ → Cycle
cycle n = record {
  net = λ sent m. raised;
  db = db;
  settings = settings;
  now = now + n;
  later = now + n;
}

abbrev cycles : List Cycle
cycles = cycle 0 ∷ record (cycle 60_000_000) { net = λ sent m. delivered } ∷ []

-- The second cycle does not try again.
outbox_test :
    map (λ (m : Outgoing). m.to) (run_cycles cycles (record { claims = []; outbox = [] })).outbox
    ≡ codes "591" ∷ []
unfolding campaign
outbox_test = refl

cycles-Differ_example :
    Pairs Differ (run_cycles cycles (record { claims = []; outbox = [] })).outbox
cycles-Differ_example = cycles-Differ cycles []
