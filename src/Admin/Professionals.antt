-- ===== src/Admin/Professionals.antt =====
-- src/application/professional: the use cases that create, change, hide and list professionals.
use schedule_appointments.Base.{ℕ, Bool, false, not, Option, none, some, List}
use schedule_appointments.Base.Int.{ℤ}
use schedule_appointments.Base.Text.{Text, is_blank}
use schedule_appointments.Errors.{
  called, validation, conflict, not_found, empty_name, already_member, no_professional,
}
use schedule_appointments.Professional
use schedule_appointments.Professional.{Professional}
use schedule_appointments.Store.Tables.{◌>>=◌, ◌>>◌, Db, Tx, pure, query, require, lift, reject_if}
use schedule_appointments.Store.Professionals as ProfessionalStore
use schedule_appointments.Admin.Paging.{page_number, page_length, page_offset}
use schedule_appointments.Admin.Businesses.{is_given_blank}

-- `CreateProfessionalInput`
pub record CreateProfessionalInput : Type 0 where
  pub business_id : ℕ
  pub name : Text
  pub user_id : Option ℕ
  pub phone : Option Text

-- The answers of the create and the update; the first leaves the phone out.
pub record ProfessionalOutput : Type 0 where
  pub professional_id : ℕ
  pub name : Text
  pub phone : Option Text

abbrev pub professional_output : Professional → ProfessionalOutput
professional_output p = record { professional_id = p.id; name = p.name; phone = p.phone }

abbrev pub is_there_already : ℕ → ℕ → Option ℕ → Db → Bool
is_there_already tenant business none db = false
is_there_already tenant business (some user) db =
    ProfessionalStore.user_in_business_exists tenant user business db

unfoldable pub create_professional :
    (tenant now new_id : ℕ) → CreateProfessionalInput → Tx ProfessionalOutput
create_professional tenant now new_id i = do
  reject_if (is_blank i.name) (validation empty_name)
  exists ← query (is_there_already tenant i.business_id i.user_id)
  reject_if exists (conflict already_member)
  p ← lift (Professional.create new_id now tenant i.business_id i.name i.user_id i.phone)
  ProfessionalStore.add tenant p
  pure (professional_output p)

unfoldable pub delete_professional : (tenant now id : ℕ) → Tx ℕ
delete_professional tenant now id = do
  deleted ← ProfessionalStore.delete tenant now id
  reject_if (not deleted) (not_found no_professional)
  pure id

-- The answer has the fields of the professional but for the times.
unfoldable pub get_professional : (tenant id : ℕ) → Tx Professional
get_professional tenant id =
    query (ProfessionalStore.get_by_id tenant id) >>= λ o. require o (not_found no_professional)

pub record ListProfessionalsOutput : Type 0 where
  pub professionals : List Professional
  pub total : ℕ
  pub page : ℕ
  pub page_size : ℕ

-- A summary has the fields of the professional but for the business and the times.
unfoldable pub list_professionals :
    (tenant business : ℕ) → (page page_size : ℤ) → Tx ListProfessionalsOutput
list_professionals tenant business page page_size = do
  rows ← query (
      ProfessionalStore.list_by_business tenant business (page_offset page page_size)
        (page_length page_size))
  total ← query (ProfessionalStore.count_by_business tenant business)
  pure (record {
    professionals = rows;
    total = total;
    page = page_number page;
    page_size = page_length page_size;
  })

unfoldable pub update_professional :
    (tenant now id : ℕ) (name phone : Option Text) → Tx ProfessionalOutput
update_professional tenant now id name phone = do
  reject_if (is_given_blank name) (validation empty_name)
  found ← require (← query (ProfessionalStore.get_by_id tenant id)) (not_found no_professional)
  p ← lift (called (Professional.update name phone now found))
  ProfessionalStore.update tenant p
  pure (professional_output p)
