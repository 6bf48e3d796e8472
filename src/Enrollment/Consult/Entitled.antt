-- ===== src/Enrollment/Consult/Entitled.antt =====
-- What get_client_membership.py answers a client who is entitled.
use schedule_appointments.Base.{
  ℕ, ◌≡◌, ◌≢◌, refl, sym, subst, ap, ◌∙◌, inl, inr, Bool, true, false, ◌&&◌, Option, none, some,
  List, [], ◌∷◌, arith, ◌==◌, keep, keep-none, keep-keep_implied, first, All-map, All-first,
  All-tabulate, Pairs, Bool-cases, if◌then◌else◌,
}
use schedule_appointments.Membership
use schedule_appointments.Membership.{Membership}
use schedule_appointments.Store.Tables.{Db}
use schedule_appointments.Store.Memberships
use schedule_appointments.Store.Memberships.{is_live_of, newest_first, insert_newest}
use schedule_appointments.Enrollment.Consult.{
  Standing, get_client_membership, consulted, standing_or_none,
}
use schedule_appointments.Enrollment.Single.{Apart, IsSingle}

-- The answer names the membership as current.
abbrev pub Confirms : Standing → Membership → Type 0
Confirms s m = (s.is_current ≡ true) × (s.membership_id ≡ some m.id) × (s.warning ≡ none)

module _ (tenant client business : ℕ) where
  not_live :
      (x m : Membership)
      → Apart x m
      → is_live_of tenant client business m ≡ true
      → is_live_of tenant client business x ≡ false
  not_live x m h l = elim (Bool-cases (is_live_of tenant client business x)) [
    | inl e ↦
        let k = h (ground arith) (ground arith) (ground arith) (ground arith) in ground (arith, k)
    | inr e ↦ e
  ]

  not_live_after :
      (x m : Membership)
      → Apart m x
      → is_live_of tenant client business m ≡ true
      → is_live_of tenant client business x ≡ false
  not_live_after x m h l = elim (Bool-cases (is_live_of tenant client business x)) [
    | inl e ↦
        let k = h (ground arith) (ground arith) (ground arith) (ground arith) in ground (arith, k)
    | inr e ↦ e
  ]

  -- A live membership of the client is the only one.
  live_alone :
      (p : Membership → Bool) (m : Membership) (ms : List Membership)
      → Pairs Apart ms
      → first p ms ≡ some m
      → is_live_of tenant client business m ≡ true
      → keep (is_live_of tenant client business) ms ≡ m ∷ []
  live_alone p m [] h f l = cc
  live_alone p m (x ∷ xs) h f l = elim (Bool-cases (p x)) [
    | inl e ↦
        let g : some x ≡ some m = rw e at f in
        let same : x ≡ m = some_injective g in
        let alive : is_live_of tenant client business x ≡ true =
          ap (is_live_of tenant client business) same ∙ l in
        rw
          (
            alive,
            keep-none (is_live_of tenant client business) xs
                (All-map xs (λ y a. not_live_after y x a alive) h.0),
          )
          (ap (λ z. z ∷ []) same)
    | inr e ↦
        let g : first p xs ≡ some m = rw e at f in
        rw (not_live x m (All-first (Apart x) p xs g h.0).0 l) (live_alone p m xs h.1 g l)
  ]
    where
      some_injective : {x y : Membership} → some x ≡ some y → x ≡ y
      some_injective h = cc

  current_live :
      (now : ℕ) (m : Membership)
      → m.tenant_id ≡ tenant
      → m.client_id ≡ client
      → m.business_id ≡ business
      → Membership.is_current now m ≡ true
      → is_live_of tenant client business m ≡ true
  unfolding Membership.is_current
  current_live now m t c b h = ground arith

  confirmed :
      (now : ℕ) (db : Db) (o : Option Membership) (m : Membership)
      → o ≡ some m
      → Membership.is_current now m ≡ true
      → Confirms (standing_or_none tenant now db o) m
  confirmed now db o m e h =
      subst (λ x. Confirms (standing_or_none tenant now db x) m) (sym e) (h, refl, rw h refl)

  consulted_live :
      (m : Membership) (db : Db)
      → keep (is_live_of tenant client business) db.memberships ≡ m ∷ []
      → consulted tenant client business db ≡ some m
  unfolding Memberships.get_current_for_client newest_first insert_newest
  consulted_live m db h = rw (consulted, Memberships.get_current_for_client, h) refl

  abbrev pub is_of_client : Membership → Bool
  is_of_client x = x.tenant_id == tenant && x.client_id == client

  -- The live memberships at a business are among all those of the client.
  live_of_alone :
      (other : ℕ) (m : Membership) (ms : List Membership)
      → keep is_of_client ms ≡ m ∷ []
      → keep (is_live_of tenant client other) ms
        ≡ (if is_live_of tenant client other m then m ∷ [] else [])
  live_of_alone other m ms h =
      sym (keep-keep_implied (is_live_of tenant client other) is_of_client ms (λ x e. ground arith))
      ∙ ap (keep (is_live_of tenant client other)) h

  consulted_alone :
      (other : ℕ) (m : Membership) (db : Db)
      → keep is_of_client db.memberships ≡ m ∷ []
      → consulted tenant client other db ≡ some m
  unfolding Memberships.get_current_for_client Memberships.list_by_client newest_first insert_newest
  consulted_alone other m db h = elim (Bool-cases (is_live_of tenant client other m)) [
    | inl live ↦
        let here = live_of_alone other m db.memberships h in
        rw (consulted, Memberships.get_current_for_client, here, live) refl
    | inr ended ↦
        let here = live_of_alone other m db.memberships h in
        rw (consulted, Memberships.get_current_for_client, here, ended, h) refl
  ]

  -- A client with a membership that is current at a business is told so: the answer names it, calls
  -- it current and has no warning. It is assumed that no two memberships are live for one client.
  pub consult_entitled :
      (now id : ℕ) (m : Membership) (db : Db)
      → IsSingle db.memberships
      → Memberships.get_by_id tenant id db ≡ some m
      → m.client_id ≡ client
      → m.business_id ≡ business
      → Membership.is_current now m ≡ true
      → Confirms (get_client_membership tenant now client business db) m
  unfolding get_client_membership Memberships.get_by_id
  consult_entitled now id m db w found c b h =
      let here =
        All-first (λ (_ : Membership). Unit {0}) (λ x. x.id == id && x.tenant_id == tenant)
          db.memberships found (All-tabulate db.memberships (λ _. tt)) in
      let only =
        live_alone (λ x. x.id == id && x.tenant_id == tenant) m db.memberships w.single found
          (current_live now m (ground (arith, here.1)) c b h) in
      confirmed now db (consulted tenant client business db) m (consulted_live m db only) h

  -- A client whose only membership is current and at another business is told here, too, that it is
  -- current, with no warning: the answer is the one that the other business gives.
  pub consult_elsewhere :
      (now : ℕ) (m : Membership) (db : Db)
      → keep is_of_client db.memberships ≡ m ∷ []
      → m.business_id ≢ business
      → Membership.is_current now m ≡ true
      → Confirms (get_client_membership tenant now client business db) m
        × (get_client_membership tenant now client business db
            ≡ get_client_membership tenant now client m.business_id db)
  unfolding get_client_membership
  consult_elsewhere now m db alone elsewhere h =
      let here = consulted_alone business m db alone in
      let there = consulted_alone m.business_id m db alone in
      (confirmed now db (consulted tenant client business db) m here h, rw (here, there) refl)
