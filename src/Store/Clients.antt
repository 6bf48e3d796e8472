-- ===== src/Store/Clients.antt =====
-- src/infrastructure/persistence/repositories/client_repository.py
use schedule_appointments.Base.{ℕ, Bool, true, false, ◌&&◌, Option, [], ◌∷◌, ◌++◌, ◌==◌, first}
use schedule_appointments.Base.Text.{Text, text_eq}
use schedule_appointments.Client.{Client, Channel, whatsapp, messenger, instagram, is_whatsapp}
use schedule_appointments.Store.Tables.{Db}
use schedule_appointments.Store.Rows.{merge}

abbrev channel_eq : Channel → Channel → Bool
channel_eq whatsapp whatsapp = true
channel_eq messenger messenger = true
channel_eq instagram instagram = true
channel_eq _ _ = false

module _ (tenant : ℕ) where
  unfoldable pub get_by_id : ℕ → Db → Option Client
  get_by_id id db = first (λ c. c.id == id && c.tenant_id == tenant) db.clients

  abbrev pub is_reached_at : Text → Client → Bool
  is_reached_at number c =
      text_eq c.whatsapp_number number
      && (is_whatsapp c.channel && (c.tenant_id == tenant && c.is_active))

  unfoldable pub get_by_whatsapp : Text → Db → Option Client
  get_by_whatsapp number db = first (is_reached_at number) db.clients

  unfoldable pub get_by_channel_id : Channel → Text → Db → Option Client
  get_by_channel_id channel external_id db =
      first
        (λ c.
          channel_eq c.channel channel
          && (text_eq c.external_id external_id && (c.tenant_id == tenant && c.is_active)))
        db.clients

unfoldable pub add : Client → Db → Db
add c db = record db { clients = db.clients ++ c ∷ [] }

unfoldable pub update : Client → Db → Db
update c db = record db { clients = merge (λ (x : Client). x.id) c db.clients }
