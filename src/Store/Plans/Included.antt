-- ===== src/Store/Plans/Included.antt =====
-- Reading back the services that `set_services` wrote for a plan.
use mathlib.Core.List.{Perm}
use schedule_appointments.Base.{
  ℕ, ◌≡◌, ◌≢◌, refl, not, List, [], ◌∷◌, ◌++◌, map, arith, ==_refl, keep, keep-append,
  keep-keep-not, keep-keep_implied,
}
use schedule_appointments.Store.Tables.{Db, PlanService}
use schedule_appointments.Store.Plans
use schedule_appointments.Store.Plans.{is_of_plan, service_row, unrepeated}

module _ (tenant : ℕ) where
  keep-new :
      (plan : ℕ) (ids : List ℕ)
      → keep (is_of_plan tenant plan) (map (service_row tenant plan) ids)
        ≡ map (service_row tenant plan) ids
  keep-new plan [] = refl
  keep-new plan (x ∷ xs) = rw (==_refl plan, ==_refl tenant, keep-new plan xs) refl

  map-new :
      (plan : ℕ) (ids : List ℕ)
      → map (λ (r : PlanService). r.service_id) (map (service_row tenant plan) ids) ≡ ids
  map-new plan [] = refl
  map-new plan (x ∷ xs) = rw (map-new plan xs) refl

  keep-other :
      (plan other : ℕ) (ids : List ℕ)
      → other ≢ plan
      → keep (is_of_plan tenant other) (map (service_row tenant plan) ids) ≡ []
  keep-other plan other [] n = refl
  keep-other plan other (x ∷ xs) n = ground (arith, keep-other plan other xs n)

  append-nil : {A : Type 0} (xs : List A) → xs ++ [] ≡ xs
  append-nil [] = refl
  append-nil (x ∷ xs) = rw (append-nil xs) refl

  -- After `set_services`, the plan includes exactly the given services, each once, and every other plan
  -- includes what it did, in whatever order the database gives the rows of a query.
  pub list-set_services :
      (plan : ℕ) (ids : List ℕ) (db : Db)
      → ((xs : List ℕ) → Perm (db.arrange xs) xs)
      → let d = Plans.set_services tenant plan ids db in
        Perm (Plans.list_service_ids tenant plan d) (unrepeated ids)
        × ((other : ℕ)
            → other ≢ plan
            → Plans.list_service_ids tenant other d ≡ Plans.list_service_ids tenant other db)
  unfolding Plans.set_services Plans.list_service_ids
  list-set_services plan ids db perm = (
    rw
        (
          keep-append (is_of_plan tenant plan)
              (keep (λ r. not (is_of_plan tenant plan r)) db.plan_services)
              (map (service_row tenant plan) (unrepeated ids)),
          keep-keep-not (is_of_plan tenant plan) db.plan_services,
          keep-new plan (unrepeated ids),
          map-new plan (unrepeated ids),
        )
        (perm (unrepeated ids)),
    λ other n.
        rw
          (
            keep-append (is_of_plan tenant other)
                (keep (λ r. not (is_of_plan tenant plan r)) db.plan_services)
                (map (service_row tenant plan) (unrepeated ids)),
            keep-other plan other (unrepeated ids) n,
            keep-keep_implied (is_of_plan tenant other) (λ r. not (is_of_plan tenant plan r))
                db.plan_services (λ r h. ground arith),
            append-nil (keep (is_of_plan tenant other) db.plan_services),
          )
          refl,
  )
