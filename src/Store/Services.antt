-- ===== src/Store/Services.antt =====
-- src/infrastructure/persistence/repositories/service_repository.py
use schedule_appointments.Base.{
  ℕ, ◌≡◌, refl, Bool, true, false, ◌&&◌, ◌||◌, not, Option, none, some, List, [], ◌∷◌, ◌++◌, arith,
  ◌==◌, first, keep, count, page, if◌then◌else◌,
}
use schedule_appointments.Service.{Service}
use schedule_appointments.Slot.{Capacities, capacity_of}
use schedule_appointments.Errors.{tenant_isolation, other_tenant}
use schedule_appointments.Store.Tables.{◌>>◌, Db, Tx, Assignment, pure, modify, reject_if}
use schedule_appointments.Store.Rows.{merge}

-- `x in xs`
abbrev pub contains : ℕ → List ℕ → Bool
contains k [] = false
contains k (x ∷ xs) = x == k || contains k xs

-- The elements of `set(xs)`, in some order.
abbrev pub distinct : List ℕ → List ℕ
distinct [] = []
distinct (x ∷ xs) = if contains x xs then distinct xs else x ∷ distinct xs

module _ (tenant : ℕ) where
  unfoldable pub get_by_id : ℕ → Db → Option Service
  get_by_id id db = first (λ s. s.id == id && s.tenant_id == tenant) db.services

  -- `SELECT … FOR UPDATE`: the row lock orders concurrent transactions, and one that runs alone
  -- reads the same row as `get_by_id`.
  unfoldable pub lock_for_update : ℕ → Db → Option Service
  unfolding get_by_id
  lock_for_update id db = get_by_id id db

  abbrev pub capacity_rows : List ℕ → List Service → Capacities
  capacity_rows ids [] = []
  capacity_rows ids (s ∷ rows) =
      if contains s.id ids && s.tenant_id == tenant
      then (s.id, s.capacity) ∷ capacity_rows ids rows
      else capacity_rows ids rows

  unfoldable pub get_capacity_map : List ℕ → Db → Capacities
  get_capacity_map ids db = capacity_rows ids db.services

  abbrev pub assigned_rows : ℕ → List Assignment → List ℕ
  assigned_rows service [] = []
  assigned_rows service (r ∷ rows) =
      if r.service_id == service && r.tenant_id == tenant
      then r.professional_id ∷ assigned_rows service rows
      else assigned_rows service rows

  unfoldable pub list_professional_ids : ℕ → Db → List ℕ
  list_professional_ids service db = assigned_rows service db.assignments

  abbrev pub new_rows : ℕ → List ℕ → List Assignment
  new_rows service [] = []
  new_rows service (p ∷ ps) =
      record { tenant_id = tenant; service_id = service; professional_id = p } ∷ new_rows service ps

  unfoldable pub set_professionals : ℕ → List ℕ → Db → Db
  set_professionals service ids db = record db {
    assignments =
        keep (λ r. not (r.service_id == service && r.tenant_id == tenant)) db.assignments
        ++ new_rows service (distinct ids);
  }

module _ (tenant : ℕ) where
  abbrev pub is_listed : ℕ → Service → Bool
  is_listed business s = s.tenant_id == tenant && (s.business_id == business && s.is_active)

  -- The query names no order: the rows are here in the order in which they were added.
  unfoldable pub list_by_business : (business offset limit : ℕ) → Db → List Service
  list_by_business business offset limit db =
      page offset limit (keep (is_listed business) db.services)

  unfoldable pub count_by_business : ℕ → Db → ℕ
  count_by_business business db = count (is_listed business) db.services

  unfoldable pub add : Service → Tx (Unit {0})
  add s = do
    reject_if (not (s.tenant_id == tenant)) (tenant_isolation other_tenant)
    modify (λ db. record db { services = db.services ++ s ∷ [] })

  unfoldable pub update : Service → Tx (Unit {0})
  unfolding merge
  update s = do
    reject_if (not (s.tenant_id == tenant)) (tenant_isolation other_tenant)
    modify (λ db. record db { services = merge (λ (s : Service). s.id) s db.services })

  -- A soft delete; the column `updated_at` is set to the database's clock.
  abbrev pub hidden : ℕ → Option Service → Tx Bool
  hidden now none = pure false
  hidden now (some s) = do
    modify (λ db. record db {
      services =
          merge (λ (s : Service). s.id) (record s { is_active = false; updated_at = now })
            db.services;
    })
    pure true

  unfoldable pub delete : (now id : ℕ) → Tx Bool
  unfolding get_by_id merge
  delete now id db = hidden now (get_by_id tenant id db) db

-- The capacity that booking uses for a service of the tenant, 1 for one that is not there.
abbrev pub capacity_or_one : Option Service → ℕ
capacity_or_one none = 1
capacity_or_one (some s) = s.capacity

abbrev pub capacity_in : ℕ → List Service → ℕ → ℕ
capacity_in tenant rows k = capacity_or_one (first (λ s. s.id == k && s.tenant_id == tenant) rows)

pub capacity_of-capacity_rows :
    (tenant : ℕ) (ids : List ℕ) (rows : List Service) (k : ℕ)
    → contains k ids ≡ true
    → capacity_of (capacity_rows tenant ids rows) k ≡ capacity_in tenant rows k
unfolding capacity_of
capacity_of-capacity_rows tenant ids [] k h = refl
capacity_of-capacity_rows tenant ids (s ∷ rows) k h =
    ground (arith, capacity_of-capacity_rows tenant ids rows k h)
