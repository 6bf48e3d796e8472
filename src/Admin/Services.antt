-- ===== src/Admin/Services.antt =====
-- src/application/service: the use cases that create, change, hide, list and assign services.
use schedule_appointments.Base.{ℕ, Bool, false, not, Option, none, some, List, [], ◌∷◌, map, ◌==◌}
use schedule_appointments.Base.Int.{ℤ, pos, ltb_ℤ}
use schedule_appointments.Base.Text.{Text, is_blank}
use schedule_appointments.Errors.{
  called, validation, not_found, empty_name, short_duration, negative_price, low_capacity,
  no_service, no_professional, foreign_business, inactive,
}
use schedule_appointments.Service
use schedule_appointments.Service.{Service}
use schedule_appointments.Store.Tables.{
  ◌>>=◌, ◌>>◌, Tx, pure, query, require, lift, modify, reject_if,
}
use schedule_appointments.Store.Services as ServiceStore
use schedule_appointments.Store.Professionals as ProfessionalStore
use schedule_appointments.Admin.Paging.{page_number, page_length, page_offset}
use schedule_appointments.Admin.Businesses.{is_given_blank}

-- `CreateServiceInput`
pub record CreateServiceInput : Type 0 where
  pub business_id : ℕ
  pub name : Text
  pub duration_minutes : ℤ
  pub description : Option Text
  pub price : Option ℤ
  pub capacity : ℤ

pub record ServiceOutput : Type 0 where
  pub service_id : ℕ
  pub name : Text
  pub duration_minutes : ℕ
  pub price : Option ℕ
  pub capacity : ℕ

-- `x is not None and x < n`
abbrev pub is_below : ℤ → Option ℤ → Bool
is_below n none = false
is_below n (some x) = ltb_ℤ x n

abbrev pub draft_of : ℕ → CreateServiceInput → Service.Draft
draft_of tenant i = record {
  tenant_id = tenant;
  business_id = i.business_id;
  name = i.name;
  duration_minutes = i.duration_minutes;
  description = i.description;
  price = i.price;
  capacity = i.capacity;
}

-- The answers of the create and the update; the first leaves the price out.
abbrev pub service_output : Service → ServiceOutput
service_output s = record {
  service_id = s.id;
  name = s.name;
  duration_minutes = s.duration_minutes;
  price = s.price;
  capacity = s.capacity;
}

unfoldable pub create_service : (tenant now new_id : ℕ) → CreateServiceInput → Tx ServiceOutput
create_service tenant now new_id i = do
  reject_if (is_blank i.name) (validation empty_name)
  reject_if (ltb_ℤ i.duration_minutes (pos 1)) (validation short_duration)
  reject_if (is_below (pos 0) i.price) (validation negative_price)
  reject_if (ltb_ℤ i.capacity (pos 1)) (validation low_capacity)
  s ← lift (Service.create new_id now (draft_of tenant i))
  ServiceStore.add tenant s
  pure (service_output s)

unfoldable pub delete_service : (tenant now id : ℕ) → Tx ℕ
delete_service tenant now id = do
  deleted ← ServiceStore.delete tenant now id
  reject_if (not deleted) (not_found no_service)
  pure id

-- A service with the professionals who perform it. A summary leaves the business and the description
-- out.
pub record ServiceView : Type 0 where
  pub service : Service
  pub professional_ids : List ℕ

unfoldable pub get_service : (tenant id : ℕ) → Tx ServiceView
get_service tenant id = do
  s ← require (← query (ServiceStore.get_by_id tenant id)) (not_found no_service)
  ids ← query (ServiceStore.list_professional_ids tenant s.id)
  pure (record { service = s; professional_ids = ids })

pub record ListServicesOutput : Type 0 where
  pub services : List ServiceView
  pub total : ℕ
  pub page : ℕ
  pub page_size : ℕ

unfoldable pub list_services : (tenant business : ℕ) → (page page_size : ℤ) → Tx ListServicesOutput
list_services tenant business page page_size = do
  rows ← query (
      ServiceStore.list_by_business tenant business (page_offset page page_size)
        (page_length page_size))
  total ← query (ServiceStore.count_by_business tenant business)
  summaries ← query (λ db.
      map
        (λ (s : Service). record {
          service = s;
          professional_ids = ServiceStore.list_professional_ids tenant s.id db;
        })
        rows)
  pure (record {
    services = summaries;
    total = total;
    page = page_number page;
    page_size = page_length page_size;
  })

unfoldable pub update_service : (tenant now id : ℕ) → Service.Changes → Tx ServiceOutput
update_service tenant now id c = do
  reject_if (is_given_blank c.name) (validation empty_name)
  reject_if (is_below (pos 1) c.duration_minutes) (validation short_duration)
  reject_if (is_below (pos 0) c.price) (validation negative_price)
  reject_if (is_below (pos 1) c.capacity) (validation low_capacity)
  found ← require (← query (ServiceStore.get_by_id tenant id)) (not_found no_service)
  s ← lift (called (Service.update c now found))
  ServiceStore.update tenant s
  pure (service_output s)

-- The loop over the professionals, in the order that the set has.
abbrev pub check_professionals : (tenant business : ℕ) → List ℕ → Tx (Unit {0})
check_professionals tenant business [] = pure tt
check_professionals tenant business (id ∷ ids) = do
  p ← require (← query (ProfessionalStore.get_by_id tenant id)) (not_found no_professional)
  reject_if (not (p.business_id == business)) (validation foreign_business)
  reject_if (not p.is_active) (validation inactive)
  check_professionals tenant business ids

unfoldable pub assign_professionals : (tenant service : ℕ) → List ℕ → Tx (List ℕ)
assign_professionals tenant service professional_ids = do
  s ← require (← query (ServiceStore.get_by_id tenant service)) (not_found no_service)
  let unique_ids = ServiceStore.distinct professional_ids
  check_professionals tenant s.business_id unique_ids
  modify (ServiceStore.set_professionals tenant s.id unique_ids)
  pure unique_ids
