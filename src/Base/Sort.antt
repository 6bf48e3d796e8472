-- ===== src/Base/Sort.antt =====
-- Stable sorting by a number: Python's `sorted(xs, key=f)` and SQL's `ORDER BY`.
use Prim.Native.Nat.{ℕ, ◌≤◌}
use mathlib.Core.Path.{◌≡◌, refl, subst}
use mathlib.Core.Logic.{inl, inr}
use mathlib.Core.List.{List, [], ◌∷◌}
use native.Mathlib.Omega.{arith}
use mathlib.Core.Option.{Option, none, some}
use schedule_appointments.Base.Tests.{leb, ltb, Bool-cases, Option-cases, if◌then◌else◌}
use schedule_appointments.Base.Lists.{All}
use schedule_appointments.Base.Predicates.{Pairs, All-map}

module _ {ℓ} {A : Type ℓ} (key : A → ℕ) where
  unfoldable pub insert_on : A → List A → List A
  insert_on a [] = a ∷ []
  insert_on a (x ∷ xs) = if leb (key a) (key x) then a ∷ x ∷ xs else x ∷ insert_on a xs

  unfoldable pub sort_on : List A → List A
  unfolding insert_on
  sort_on [] = []
  sort_on (x ∷ xs) = insert_on x (sort_on xs)

  -- Every two elements, the earlier one first, have their keys in order.
  abbrev pub IsSorted : List A → Type 0
  IsSorted = Pairs (λ x y. key x ≤ key y)

  pub All-insert_on {κ} :
      (P : A → Type κ) (a : A) (xs : List A) → P a → All P xs → All P (insert_on a xs)
  unfolding insert_on
  All-insert_on P a [] p h = (p, tt)
  All-insert_on P a (x ∷ xs) p h = elim (Bool-cases (leb (key a) (key x))) [
    | inl e ↦ rw e (p, h)
    | inr e ↦ rw e (h.0, All-insert_on P a xs p h.1)
  ]

  pub All-sort_on {κ} : (P : A → Type κ) (xs : List A) → All P xs → All P (sort_on xs)
  unfolding sort_on
  All-sort_on P [] h = tt
  All-sort_on P (x ∷ xs) h = All-insert_on P x (sort_on xs) h.0 (All-sort_on P xs h.1)

  insert_on-IsSorted : (a : A) (xs : List A) → IsSorted xs → IsSorted (insert_on a xs)
  unfolding insert_on
  insert_on-IsSorted a [] h = (tt, tt)
  insert_on-IsSorted a (x ∷ xs) h = elim (Bool-cases (leb (key a) (key x))) [
    | inl e ↦
        let le : key a ≤ key x = ground arith in
        rw e ((le, All-map xs (λ y (g : key x ≤ key y). omega arith) h.0), h)
    | inr e ↦
        rw e
          (All-insert_on (λ y. key x ≤ key y) a xs (ground arith) h.0, insert_on-IsSorted a xs h.1)
  ]

  pub sort_on-IsSorted : (xs : List A) → IsSorted (sort_on xs)
  unfolding sort_on
  sort_on-IsSorted [] = tt
  sort_on-IsSorted (x ∷ xs) = insert_on-IsSorted x (sort_on xs) (sort_on-IsSorted xs)

  -- A sorted list is left alone.
  pub sort_on-sorted : (xs : List A) → IsSorted xs → sort_on xs ≡ xs
  unfolding sort_on insert_on
  sort_on-sorted [] h = refl
  sort_on-sorted (x ∷ []) h = refl
  sort_on-sorted (x ∷ y ∷ ys) h =
      let later = sort_on-sorted (y ∷ ys) h.1 in rw later (ground (arith, h.0.0))

  pub Pairs-insert_on {κ} :
      (R : A → A → Type κ) (a : A) (xs : List A)
      → All (λ x. R a x × R x a) xs
      → Pairs R xs
      → Pairs R (insert_on a xs)
  unfolding insert_on
  Pairs-insert_on R a [] k h = (tt, tt)
  Pairs-insert_on R a (x ∷ xs) k h = elim (Bool-cases (leb (key a) (key x))) [
    | inl e ↦ rw e ((k.0.0, All-map xs (λ y r. r.0) k.1), h)
    | inr e ↦ rw e (All-insert_on (R x) a xs k.0.1 h.0, Pairs-insert_on R a xs k.1 h.1)
  ]

  -- A symmetric relation between every two elements outlives the sorting.
  pub Pairs-sort_on {κ} :
      (R : A → A → Type κ) (xs : List A)
      → ((x y : A) → R x y → R y x)
      → Pairs R xs
      → Pairs R (sort_on xs)
  unfolding sort_on
  Pairs-sort_on R [] flip h = tt
  Pairs-sort_on R (x ∷ xs) flip h =
      Pairs-insert_on R x (sort_on xs)
        (All-sort_on (λ y. R x y × R y x) xs (All-map xs (λ y r. (r, flip x y r)) h.0))
        (Pairs-sort_on R xs flip h.1)

  -- The first row under a descending `ORDER BY`.
  unfoldable pub newest_on : List A → Option A
  newest_on [] = none
  newest_on (x ∷ xs) = newer x (newest_on xs)
    where
      newer : A → Option A → Option A
      newer x none = some x
      newer x (some y) = if ltb (key x) (key y) then some y else some x

  -- What holds of all rows holds of the newest.
  pub All-newest_on {κ} :
      (P : A → Type κ) (xs : List A) {a : A} → All P xs → newest_on xs ≡ some a → P a
  unfolding newest_on
  All-newest_on P [] h e = cc
  All-newest_on P (x ∷ xs) {a} h e = elim (Option-cases (newest_on xs)) [
    | inl n ↦ let f : some x ≡ some a = rw n at e in subst P (some_injective f) h.0
    | inr (y, n) ↦
        let k = All-newest_on P xs h.1 n in
        elim (Bool-cases (ltb (key x) (key y))) [
          | inl t ↦ let f : some y ≡ some a = rw (n, t) at e in subst P (some_injective f) k
          | inr t ↦ let f : some x ≡ some a = rw (n, t) at e in subst P (some_injective f) h.0
        ]
  ]
    where
      some_injective : {x y : A} → some x ≡ some y → x ≡ y
      some_injective h = cc
