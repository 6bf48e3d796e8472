-- ===== src/Enrollment/Single.antt =====
-- A client has at most one live membership at a business, whatever use cases of
-- src/application/membership run.
use schedule_appointments.Base.{
  ℕ, ◌≡◌, ◌≢◌, refl, sym, subst, ◌∙◌, inl, inr, true, false, not, Option, none, some, List, [], ◌∷◌,
  ◌++◌, arith, ◌==◌, head, is_none, All, All-map, All-keep, All-append_one, Pairs, Pairs-append_one,
  Option-cases, Bool-cases,
}
use schedule_appointments.Errors.{ok}
use schedule_appointments.Base.Clock.{DateTime, aware, naive}
use schedule_appointments.Client
use schedule_appointments.Client.{Client}
use schedule_appointments.Membership
use schedule_appointments.Membership.{Membership, MembershipPlan, active, expired}
use schedule_appointments.Store.Tables.{Db}
use schedule_appointments.Store.Rows.{Unique}
use schedule_appointments.Store.Ensures.{
  Ensures, Ensures-bind, Ensures-lift, Ensures-require, Ensures-reject_if,
}
use schedule_appointments.Store.Memberships
use schedule_appointments.Store.Memberships.{is_live, is_live_of, newest_first, insert_newest}
use schedule_appointments.Store.Clients
use schedule_appointments.Store.Plans
use schedule_appointments.Enrollment.Grant.{
  GrantInput, Counter, grant_membership, grant_to, resolve_client, validate_grant, client_draft,
  trimmed, resolve_by, or_new_client,
}

-- Two rows are not both live memberships of one client at one business.
abbrev pub Apart : Membership → Membership → Type 0
Apart m n =
    m.tenant_id ≡ n.tenant_id
    → m.business_id ≡ n.business_id
    → m.client_id ≡ n.client_id
    → is_live m.status ≡ true
    → is_live n.status ≡ false

pub Apart-symm : (m n : Membership) → Apart m n → Apart n m
Apart-symm m n h t b c l = elim (Bool-cases (is_live m.status)) [
  | inl e ↦ let k = h (sym t) (sym b) (sym c) e in cc
  | inr e ↦ e
]

-- The rows have different ids, none is stored as expired, and no two are live for the same client.
pub record IsSingle (ms : List Membership) : Type 0 where
  pub keys : Unique (λ (m : Membership). m.id) ms
  pub stored : All (λ (m : Membership). m.status ≢ expired) ms
  pub single : Pairs Apart ms

insert_newest-some : (m : Membership) (ms : List Membership) → head (insert_newest m ms) ≢ none
unfolding insert_newest
insert_newest-some m [] h = cc
insert_newest-some m (n ∷ ns) h = ground arith

no_newest : (ms : List Membership) → head (newest_first ms) ≡ none → ms ≡ []
unfolding newest_first
no_newest [] h = refl
no_newest (m ∷ ms) h = absurd (insert_newest-some m (newest_first ms) h)

-- Where no current membership is found, no row is live for the client.
none_live :
    (tenant client business : ℕ) (db : Db)
    → Memberships.get_current_for_client tenant client business db ≡ none
    → All (λ m. is_live_of tenant client business m ≡ true → ⊥) db.memberships
unfolding Memberships.get_current_for_client
none_live tenant client business db h =
    All-keep (λ _. ⊥) (is_live_of tenant client business) db.memberships
      (subst (All (λ _. ⊥)) (sym (no_newest _ h)) tt)

add-IsSingle :
    (m : Membership) (ms : List Membership)
    → IsSingle ms
    → All (λ (x : Membership). m.id ≢ x.id) ms
    → m.status ≢ expired
    → All (λ x. is_live_of m.tenant_id m.client_id m.business_id x ≡ true → ⊥) ms
    → IsSingle (ms ++ m ∷ [])
add-IsSingle m ms w fresh new free = record {
  keys = Pairs-append_one (λ x y. y.id ≢ x.id) m ms w.keys fresh;
  stored = All-append_one (λ (x : Membership). x.status ≢ expired) m ms w.stored new;
  single =
      Pairs-append_one Apart m ms w.single
        (All-map ms (λ x f t b c l. absurd (f (ground arith))) free);
}

module _ (r : Counter) (i : GrantInput) where
  client-memberships :
      (db : Db) → Ensures (resolve_client r i db) (λ _ d. d.memberships ≡ db.memberships)
  unfolding resolve_client Clients.add
  client-memberships db = by_id i.client_id
    where
      by_number :
          (c : Option Client)
          → Ensures
              (or_new_client r (trimmed i.client_whatsapp) (trimmed i.client_name) c db)
              (λ _ d. d.memberships ≡ db.memberships)
      by_number none =
          Ensures-lift
            (Client.create r.client_id r.now
              (client_draft r.tenant (trimmed i.client_whatsapp) (trimmed i.client_name)))
            _ db _ (λ c _. refl)
      by_number (some c) = refl

      by_id : (c : Option ℕ) → Ensures (resolve_by r i c db) (λ _ d. d.memberships ≡ db.memberships)
      by_id none = by_number (Clients.get_by_whatsapp r.tenant (trimmed i.client_whatsapp) db)
      by_id (some c) = elim (Option-cases (Clients.get_by_id r.tenant c db)) [
        | inl e ↦ rw e tt
        | inr (x, e) ↦ rw e refl
      ]

  granted-row :
      (c : Client) (plan : MembershipPlan) (start : Option DateTime) (m : Membership)
      → Membership.grant r.membership_id r.now r.tenant i.business_id c.id plan start i.notes ≡ ok m
      → (m.id ≡ r.membership_id)
        × (m.tenant_id ≡ r.tenant)
        × (m.business_id ≡ i.business_id)
        × (m.client_id ≡ c.id)
        × (m.status ≡ active)
  unfolding Membership.grant
  granted-row c plan none m h = ground arith
  granted-row c plan (some (aware t)) m h = ground arith
  granted-row c plan (some (naive t)) m h = ground arith

  grant_to-IsSingle :
      (plan : MembershipPlan) (c : Client) (db : Db)
      → IsSingle db.memberships
      → All (λ (x : Membership). r.membership_id ≢ x.id) db.memberships
      → Ensures (grant_to r i plan c db) (λ _ d. IsSingle d.memberships)
  unfolding Memberships.add
  grant_to-IsSingle plan c db w fresh =
      Ensures-reject_if
        (not (is_none (Memberships.get_current_for_client r.tenant c.id i.business_id db))) _ _ db _
        λ e.
          Ensures-lift
            (Membership.grant r.membership_id r.now r.tenant i.business_id c.id plan i.starts_at
              i.notes)
            _ db _
            λ m made.
              let row = granted-row c plan i.starts_at m made in
              let inside : not (m.tenant_id == r.tenant) ≡ false = ground (arith, row.1) in
              rw inside (
                add-IsSingle m db.memberships w
                  (All-map db.memberships (λ x n f. n (sym row.0 ∙ f)) fresh)
                  (λ f. active_not_expired (sym row.4 ∙ f))
                  (All-map db.memberships (λ x n f. n (ground (arith, row.1, row.2, row.3)))
                    (none_live r.tenant c.id i.business_id db (
                      is_none_of (Memberships.get_current_for_client r.tenant c.id i.business_id db)
                        e))))
    where
      is_none_of : (o : Option Membership) → not (is_none o) ≡ false → o ≡ none
      is_none_of o h = ground arith

      active_not_expired : active ≢ expired
      active_not_expired h = cc

  pub grant-IsSingle :
      (db : Db)
      → IsSingle db.memberships
      → All (λ (x : Membership). r.membership_id ≢ x.id) db.memberships
      → Ensures (grant_membership r i db) (λ _ d. IsSingle d.memberships)
  unfolding grant_membership
  grant-IsSingle db w fresh = Ensures-lift (validate_grant r.now i) _ db _ λ _ _.
      Ensures-require (Plans.get_by_id r.tenant i.membership_plan_id db) _ _ db _ λ plan _.
        Ensures-reject_if (not plan.is_active) _ _ db _ λ _.
          Ensures-reject_if (not (plan.business_id == i.business_id)) _ _ db _ λ _.
            Ensures-bind (resolve_client r i) (grant_to r i plan) db
              (λ _ d. d.memberships ≡ db.memberships) (λ _ d. IsSingle d.memberships)
              (client-memberships db)
              λ c d same.
                grant_to-IsSingle plan c d (subst IsSingle (sym same) w)
                  (subst (All (λ (x : Membership). r.membership_id ≢ x.id)) (sym same) fresh)
