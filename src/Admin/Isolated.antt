-- ===== src/Admin/Isolated.antt =====
-- What the use cases of src/application/business, service and professional leave alone.
use schedule_appointments.Base.{ℕ, Option, List}
use schedule_appointments.Base.Text.{Text}
use schedule_appointments.Slug.{Unicode}
use schedule_appointments.Business
use schedule_appointments.Business.{Business}
use schedule_appointments.Service
use schedule_appointments.Service.{Service}
use schedule_appointments.Store.Tables.{Db, Tx, ◌>>=◌, pure}
use schedule_appointments.Store.Ensures.{Ensures, Ensures-bind}
use schedule_appointments.Store.Foreign.{KeysUnique, SameForeign}
use schedule_appointments.Admin.Businesses
use schedule_appointments.Admin.Businesses.{CreateBusinessInput, ChannelsInput}
use schedule_appointments.Admin.Services
use schedule_appointments.Admin.Services.{CreateServiceInput}
use schedule_appointments.Admin.Professionals
use schedule_appointments.Admin.Professionals.{CreateProfessionalInput}
use schedule_appointments.Admin.Kept.Locations
use schedule_appointments.Admin.Kept.Offer

-- The use cases that write, with the ids that they get and their inputs.
pub data Call : Type 0 where
  create_business : Unicode → (new_id : ℕ) → CreateBusinessInput → Call
  update_business : (id : ℕ) → Business.Changes → Call
  update_business_channels : (id : ℕ) → ChannelsInput → Call
  update_business_whatsapp :
      (id : ℕ) (phone_number_id app_secret owner_whatsapp : Option Text) → Call
  delete_business : (id : ℕ) → Call
  create_service : (new_id : ℕ) → CreateServiceInput → Call
  update_service : (id : ℕ) → Service.Changes → Call
  delete_service : (id : ℕ) → Call
  assign_professionals : (service : ℕ) → List ℕ → Call
  create_professional : (new_id : ℕ) → CreateProfessionalInput → Call
  update_professional : (id : ℕ) (name phone : Option Text) → Call
  delete_professional : (id : ℕ) → Call

-- A call's effect, without its answer.
abbrev forget : {A : Type 0} → Tx A → Tx (Unit {0})
forget m = m >>= λ _. pure tt

module _ (tenant now : ℕ) where
  abbrev pub perform : Call → Tx (Unit {0})
  perform (create_business u new_id i) = forget (Businesses.create_business u tenant now new_id i)
  perform (update_business id c) = forget (Businesses.update_business tenant now id c)
  perform (update_business_channels id i) =
      forget (Businesses.update_business_channels tenant now id i)
  perform (update_business_whatsapp id p s o) =
      forget (Businesses.update_business_whatsapp tenant now id p s o)
  perform (delete_business id) = forget (Businesses.delete_business tenant now id)
  perform (create_service new_id i) = forget (Services.create_service tenant now new_id i)
  perform (update_service id c) = forget (Services.update_service tenant now id c)
  perform (delete_service id) = forget (Services.delete_service tenant now id)
  perform (assign_professionals s ids) = forget (Services.assign_professionals tenant s ids)
  perform (create_professional new_id i) =
      forget (Professionals.create_professional tenant now new_id i)
  perform (update_professional id name phone) =
      forget (Professionals.update_professional tenant now id name phone)
  perform (delete_professional id) = forget (Professionals.delete_professional tenant now id)

forget-Keeps :
    (tenant : ℕ) {A : Type 0} (m : Tx A) (db : Db)
    → Ensures (m db) (λ _. SameForeign tenant db)
    → Ensures (forget m db) (λ _. SameForeign tenant db)
forget-Keeps tenant m db h = Ensures-bind m _ db (λ _. SameForeign tenant db) _ h (λ _ _ k. k)

-- A call that a tenant makes and that succeeds, be it of a use case for its businesses, its services,
-- their professionals or its professionals, leaves every row of every other tenant in those tables as
-- it was, whatever ids the call names, given that no two rows of a table have the same id.
pub perform-SameForeign :
    (tenant now : ℕ) (c : Call) (db : Db)
    → KeysUnique db
    → Ensures (perform tenant now c db) (λ _. SameForeign tenant db)
perform-SameForeign tenant now (create_business u new_id i) db k =
    forget-Keeps tenant (Businesses.create_business u tenant now new_id i) db
      (Locations.create_business-Keeps tenant u now new_id i db)
perform-SameForeign tenant now (update_business id c) db k =
    forget-Keeps tenant (Businesses.update_business tenant now id c) db
      (Locations.update_business-Keeps tenant now id c db k)
perform-SameForeign tenant now (update_business_channels id i) db k =
    forget-Keeps tenant (Businesses.update_business_channels tenant now id i) db
      (Locations.update_business_channels-Keeps tenant now id i db k)
perform-SameForeign tenant now (update_business_whatsapp id p s o) db k =
    forget-Keeps tenant (Businesses.update_business_whatsapp tenant now id p s o) db
      (Locations.update_business_whatsapp-Keeps tenant now id p s o db k)
perform-SameForeign tenant now (delete_business id) db k =
    forget-Keeps tenant (Businesses.delete_business tenant now id) db
      (Locations.delete_business-Keeps tenant now id db k)
perform-SameForeign tenant now (create_service new_id i) db k =
    forget-Keeps tenant (Services.create_service tenant now new_id i) db
      (Offer.create_service-Keeps tenant now new_id i db)
perform-SameForeign tenant now (update_service id c) db k =
    forget-Keeps tenant (Services.update_service tenant now id c) db
      (Offer.update_service-Keeps tenant now id c db k)
perform-SameForeign tenant now (delete_service id) db k =
    forget-Keeps tenant (Services.delete_service tenant now id) db
      (Offer.delete_service-Keeps tenant now id db k)
perform-SameForeign tenant now (assign_professionals s ids) db k =
    forget-Keeps tenant (Services.assign_professionals tenant s ids) db
      (Offer.assign_professionals-Keeps tenant s ids db)
perform-SameForeign tenant now (create_professional new_id i) db k =
    forget-Keeps tenant (Professionals.create_professional tenant now new_id i) db
      (Offer.create_professional-Keeps tenant now new_id i db)
perform-SameForeign tenant now (update_professional id name phone) db k =
    forget-Keeps tenant (Professionals.update_professional tenant now id name phone) db
      (Offer.update_professional-Keeps tenant now id name phone db k)
perform-SameForeign tenant now (delete_professional id) db k =
    forget-Keeps tenant (Professionals.delete_professional tenant now id) db
      (Offer.delete_professional-Keeps tenant now id db k)
