-- ===== src/Enrollment/OneLive.antt =====
-- Runs of the use cases that write memberships: grant_membership.py and manage_membership.py, each in
-- a transaction of its own.
use schedule_appointments.Base.{
  ℕ, ◌≡◌, ◌≢◌, sym, ◌∙◌, inl, inr, Bool, true, false, not, some, List, [], ◌∷◌, arith, ◌==◌, ◌&&◌,
  first, All, All-map, All-first, Bool-cases,
}
use schedule_appointments.Errors.{Result, ok, err}
use schedule_appointments.Membership
use schedule_appointments.Membership.{Membership, expired}
use schedule_appointments.Store.Tables.{Db}
use schedule_appointments.Store.Rows.{merge, Pairs-merge, Pairs-first, Unique-merge, All-merge}
use schedule_appointments.Store.Ensures.{Ensures, Ensures-lift, Ensures-require}
use schedule_appointments.Store.Memberships
use schedule_appointments.Store.Memberships.{is_live}
use schedule_appointments.Enrollment.Grant.{GrantInput, Counter, grant_membership}
use schedule_appointments.Enrollment.Manage.{
  Action, renew, freeze, unfreeze, cancel, apply, changed, manage_membership,
}
use schedule_appointments.Enrollment.Single.{Apart, Apart-symm, IsSingle, grant-IsSingle}

-- What a command keeps of a membership: whose it is; and it brings none to life.
abbrev SameOwner : Membership → Membership → Type 0
SameOwner m m' =
    (m'.id ≡ m.id)
    × (m'.tenant_id ≡ m.tenant_id)
    × (m'.business_id ≡ m.business_id)
    × (m'.client_id ≡ m.client_id)
    × (is_live m'.status ≡ true → is_live m.status ≡ true)

apply-SameOwner :
    (action : Action) (now : ℕ) (m m' : Membership)
    → m.status ≢ expired
    → changed (apply action now m) ≡ ok m'
    → SameOwner m m' × (m'.status ≢ expired)
unfolding apply Membership.renew Membership.freeze Membership.unfreeze Membership.cancel
apply-SameOwner (renew period) now m m' s h = ground arith
apply-SameOwner freeze now m m' s h = ground arith
apply-SameOwner unfreeze now m m' s h = ground arith
apply-SameOwner (cancel reason) now m m' s h = ground arith

Apart-SameOwner : (x m m' : Membership) → SameOwner m m' → Apart x m → Apart x m'
Apart-SameOwner x m m' o h t b c l = elim (Bool-cases (is_live m'.status)) [
  | inl e ↦ let k = h (t ∙ o.1) (b ∙ o.2) (c ∙ o.3) l in let live = o.4 e in cc
  | inr e ↦ e
]

update-IsSingle :
    (p : Membership → Bool) (m m' : Membership) (ms : List Membership)
    → IsSingle ms
    → first p ms ≡ some m
    → SameOwner m m'
    → m'.status ≢ expired
    → IsSingle (merge (λ (x : Membership). x.id) m' ms)
update-IsSingle p m m' ms w found o new = record {
  keys = Unique-merge (λ (x : Membership). x.id) m' ms w.keys;
  stored = All-merge (λ (x : Membership). x.id) (λ x. x.status ≢ expired) m' ms w.stored new;
  single =
      Pairs-merge (λ (x : Membership). x.id) Apart m' ms w.keys w.single
        (All-map ms both
          (Pairs-first (λ (x : Membership). x.id) Apart p m ms Apart-symm w.single found));
}
  where
    both : (x : Membership) → (x.id ≢ m.id → Apart x m) → x.id ≢ m'.id → Apart x m' × Apart m' x
    both x h n =
        let a = Apart-SameOwner x m m' o (h (λ e. n (e ∙ sym o.0))) in (a, Apart-symm x m' a)

manage-IsSingle :
    (tenant now id : ℕ) (action : Action) (db : Db)
    → IsSingle db.memberships
    → Ensures (manage_membership tenant now id action db) (λ _ d. IsSingle d.memberships)
unfolding manage_membership Memberships.get_by_id Memberships.update
manage-IsSingle tenant now id action db w =
    Ensures-require (Memberships.get_by_id tenant id db) _ _ db _ λ m found.
      Ensures-lift (changed (apply action now m)) _ db _ λ m' made.
        let here =
          All-first (λ (x : Membership). x.status ≢ expired)
            (λ x. x.id == id && x.tenant_id == tenant) db.memberships found w.stored in
        let kept = apply-SameOwner action now m m' here.0 made in
        let inside : not (m'.tenant_id == tenant) ≡ false = ground (arith, here.1, kept.0.1) in
        rw inside (
          update-IsSingle (λ x. x.id == id && x.tenant_id == tenant) m m' db.memberships w found
            kept.0 kept.1)

-- One call of a use case, by any tenant at any time.
pub data Operation : Type 0 where
  grant : Counter → GrantInput → Operation
  manage : (tenant now id : ℕ) → Action → Operation

abbrev pub after : {A : Type 0} → Result (A × Db) → Db → Db
after (ok (_, d)) db = d
after (err _) db = db

-- The database after the call: as before where it raises.
abbrev pub run : Operation → Db → Db
run (grant r i) db = after (grant_membership r i db) db
run (manage tenant now id action) db = after (manage_membership tenant now id action db) db

unfoldable pub run_all : List Operation → Db → Db
run_all [] db = db
run_all (o ∷ os) db = run_all os (run o db)

-- Each grant gets an id that no membership has.
abbrev Provides : Operation → Db → Type 0
Provides (grant r i) db = All (λ (x : Membership). r.membership_id ≢ x.id) db.memberships
Provides (manage _ _ _ _) db = Unit

unfoldable pub ProvidesAll : List Operation → Db → Type 0
ProvidesAll [] db = Unit
ProvidesAll (o ∷ os) db = Provides o db × ProvidesAll os (run o db)

after-IsSingle :
    {A : Type 0} (x : Result (A × Db)) (db : Db)
    → IsSingle db.memberships
    → Ensures x (λ _ d. IsSingle d.memberships)
    → IsSingle (after x db).memberships
after-IsSingle (ok (a, d)) db w h = h
after-IsSingle (err e) db w h = w

run-IsSingle :
    (o : Operation) (db : Db)
    → IsSingle db.memberships
    → Provides o db
    → IsSingle (run o db).memberships
run-IsSingle (grant r i) db w p =
    after-IsSingle (grant_membership r i db) db w (grant-IsSingle r i db w p)
run-IsSingle (manage tenant now id action) db w p =
    after-IsSingle (manage_membership tenant now id action db) db w
      (manage-IsSingle tenant now id action db w)

-- Whatever memberships are granted, renewed, frozen, unfrozen and cancelled, by whatever tenants and
-- with whatever answers, no client ever has two live memberships at a business, provided that none
-- had before and that no membership is stored as expired. It is assumed that each grant gets an id
-- that no membership has.
pub one_live_membership :
    (os : List Operation) (db : Db)
    → IsSingle db.memberships
    → ProvidesAll os db
    → IsSingle (run_all os db).memberships
unfolding run_all ProvidesAll
one_live_membership [] db w p = w
one_live_membership (o ∷ os) db w p =
    one_live_membership os (run o db) (run-IsSingle o db w p.0) p.1
