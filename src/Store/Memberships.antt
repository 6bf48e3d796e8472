-- ===== src/Store/Memberships.antt =====
-- src/infrastructure/persistence/repositories/membership_repository.py: MembershipRepositoryImpl
use schedule_appointments.Base.{
  ℕ, Bool, true, false, ◌&&◌, not, Option, none, some, List, [], ◌∷◌, ◌++◌, ◌==◌, leb, first, keep,
  count, page, head, or_else, if◌then◌else◌,
}
use schedule_appointments.Base.Sort.{sort_on}
use schedule_appointments.Errors.{tenant_isolation, other_tenant}
use schedule_appointments.Membership.{Membership, Status, active, frozen, expired, cancelled}
use schedule_appointments.Store.Tables.{◌>>◌, Db, Tx, modify, reject_if}
use schedule_appointments.Store.Rows.{merge}

-- `_LIVE_STATUSES`
abbrev pub is_live : Status → Bool
is_live active = true
is_live frozen = true
is_live _ = false

abbrev status_eq : Status → Status → Bool
status_eq active active = true
status_eq frozen frozen = true
status_eq expired expired = true
status_eq cancelled cancelled = true
status_eq _ _ = false

-- The column `ends_at`, which the table does not let be empty.
abbrev pub end_of : Membership → ℕ
end_of m = or_else m.ends_at 0

unfoldable pub insert_newest : Membership → List Membership → List Membership
insert_newest m [] = m ∷ []
insert_newest m (n ∷ ns) = if leb (end_of n) (end_of m) then m ∷ n ∷ ns else n ∷ insert_newest m ns

-- `ORDER BY ends_at DESC`
unfoldable pub newest_first : List Membership → List Membership
newest_first [] = []
newest_first (m ∷ ms) = insert_newest m (newest_first ms)

-- `status == …` and `ends_at <= …`, where they are given.
abbrev has_status : Option Status → Membership → Bool
has_status none m = true
has_status (some s) m = status_eq m.status s

abbrev ends_by : Option ℕ → Membership → Bool
ends_by none m = true
ends_by (some t) m = leb (end_of m) t

module _ (tenant : ℕ) where
  unfoldable pub get_by_id : ℕ → Db → Option Membership
  get_by_id id db = first (λ m. m.id == id && m.tenant_id == tenant) db.memberships

  abbrev pub is_live_of : ℕ → ℕ → Membership → Bool
  is_live_of client business m =
      m.tenant_id == tenant
      && (m.business_id == business && (m.client_id == client && is_live m.status))

  unfoldable pub get_current_for_client : ℕ → ℕ → Db → Option Membership
  get_current_for_client client business db =
      head (newest_first (keep (is_live_of client business) db.memberships))

  unfoldable pub list_by_client : ℕ → (offset limit : ℕ) → Db → List Membership
  list_by_client client offset limit db =
      page offset limit
        (newest_first (keep (λ m. m.tenant_id == tenant && m.client_id == client) db.memberships))

  -- `_filters`
  abbrev pub is_selected : ℕ → Option Status → Option ℕ → Membership → Bool
  is_selected business status expiring_before m =
      m.tenant_id == tenant
      && (m.business_id == business && (has_status status m && ends_by expiring_before m))

  unfoldable pub list_by_business :
      ℕ → Option Status → Option ℕ → (offset limit : ℕ) → Db → List Membership
  list_by_business business status expiring_before offset limit db =
      page offset limit
        (sort_on end_of (keep (is_selected business status expiring_before) db.memberships))

  unfoldable pub count_by_business : ℕ → Option Status → Option ℕ → Db → ℕ
  count_by_business business status expiring_before db =
      count (is_selected business status expiring_before) db.memberships

  unfoldable pub add : Membership → Tx (Unit {0})
  add m = do
    reject_if (not (m.tenant_id == tenant)) (tenant_isolation other_tenant)
    modify (λ db. record db { memberships = db.memberships ++ m ∷ [] })

  unfoldable pub update : Membership → Tx (Unit {0})
  update m = do
    reject_if (not (m.tenant_id == tenant)) (tenant_isolation other_tenant)
    modify (λ db. record db { memberships = merge (λ (x : Membership). x.id) m db.memberships })
