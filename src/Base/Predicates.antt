-- ===== src/Base/Predicates.antt =====
-- Predicates over lists: all rows, and every two rows.
use Prim.Native.Nat.{◌≤◌}
use mathlib.Core.Path.{◌≡◌, refl, subst}
use mathlib.Core.Logic.{inl, inr}
use mathlib.Core.Bool.{Bool, true, false, ◌&&◌}
use mathlib.Core.Option.{none, some}
use mathlib.Core.List.{List, [], ◌∷◌, ◌++◌}
use native.Mathlib.Omega.{arith}
use schedule_appointments.Base.Tests.{Bool-cases}
use schedule_appointments.Base.Lists.{All, keep, first, count}

module _ {ℓ} {A : Type ℓ} where
  -- Every two elements, the earlier one first, are related.
  abbrev pub Pairs {κ} : (A → A → Type κ) → List A → Type κ
  Pairs R [] = Unit
  Pairs R (x ∷ xs) = All (R x) xs × Pairs R xs

module _ {ℓ κ μ} {A : Type ℓ} where
  pub All-map :
      {P : A → Type κ} {Q : A → Type μ} (xs : List A) → ((x : A) → P x → Q x) → All P xs → All Q xs
  All-map [] f h = tt
  All-map (x ∷ xs) f h = (f x h.0, All-map xs f h.1)

module _ {ℓ κ} {A : Type ℓ} where
  pub All-tabulate : {P : A → Type κ} (xs : List A) → ((x : A) → P x) → All P xs
  All-tabulate [] f = tt
  All-tabulate (x ∷ xs) f = (f x, All-tabulate xs f)

  pub All-append_one :
      (P : A → Type κ) (a : A) (xs : List A) → All P xs → P a → All P (xs ++ a ∷ [])
  All-append_one P a [] h p = (p, tt)
  All-append_one P a (x ∷ xs) h p = (h.0, All-append_one P a xs h.1 p)

  pub All-keep :
      (P : A → Type κ) (q : A → Bool) (xs : List A)
      → All P (keep q xs)
      → All (λ x. q x ≡ true → P x) xs
  All-keep P q [] h = tt
  All-keep P q (x ∷ xs) h = elim (Bool-cases (q x)) [
    | inl e ↦ let k : P x × All P (keep q xs) = rw e at h in (λ _. k.0, All-keep P q xs k.1)
    | inr e ↦ let k : All P (keep q xs) = rw e at h in (λ t. cc, All-keep P q xs k)
  ]

  pub All-first :
      (P : A → Type κ) (p : A → Bool) (xs : List A) {a : A}
      → first p xs ≡ some a
      → All P xs
      → P a × (p a ≡ true)
  All-first P p [] e h = cc
  All-first P p (x ∷ xs) {a} e h = elim (Bool-cases (p x)) [
    | inl t ↦ let s : x ≡ a = ground arith in (subst P s h.0, subst (λ y. p y ≡ true) s t)
    | inr f ↦ All-first P p xs (ground arith) h.1
  ]

module _ {ℓ κ} {A : Type ℓ} where
  pub Pairs-append_one :
      (R : A → A → Type κ) (a : A) (xs : List A)
      → Pairs R xs
      → All (λ x. R x a) xs
      → Pairs R (xs ++ a ∷ [])
  Pairs-append_one R a [] h k = (tt, tt)
  Pairs-append_one R a (x ∷ xs) h k =
      (All-append_one (R x) a xs h.0 k.0, Pairs-append_one R a xs h.1 k.1)

module _ {ℓ} {A : Type ℓ} where
  -- A count of rows that two filters and a test all pass.
  pub count-le-keep-keep :
      (p q r s : A → Bool) (xs : List A)
      → All (λ x. p x ≡ true → (q x ≡ true) × (r x ≡ true) × (s x ≡ true)) xs
      → count p xs ≤ count s (keep r (keep q xs))
  count-le-keep-keep p q r s [] h = omega arith
  count-le-keep-keep p q r s (x ∷ xs) h = elim (Bool-cases (p x)) [
    | inl t ↦ let k = h.0 t in ground (arith, k, count-le-keep-keep p q r s xs h.1)
    | inr f ↦ ground (arith, count-le-keep-keep p q r s xs h.1)
  ]

  pub count-eq-zero : (p : A → Bool) (xs : List A) → All (λ x. p x ≡ false) xs → count p xs ≡ 0
  count-eq-zero p [] h = refl
  count-eq-zero p (x ∷ xs) h = ground (arith, count-eq-zero p xs h.1)

  pub count_and-le : (q p : A → Bool) (xs : List A) → count (λ x. q x && p x) xs ≤ count p xs
  count_and-le q p [] = omega arith
  count_and-le q p (x ∷ xs) = ground (arith, count_and-le q p xs)

  pub count_and-eq :
      (q p : A → Bool) (xs : List A)
      → All (λ x. q x ≡ true) xs
      → count (λ x. q x && p x) xs ≡ count p xs
  count_and-eq q p [] h = refl
  count_and-eq q p (x ∷ xs) h = ground (arith, count_and-eq q p xs h.1)

module _ {ℓ κ μ} {A : Type ℓ} where
  pub All-zip :
      (P : A → Type κ) (Q : A → Type μ) (xs : List A)
      → All P xs
      → All Q xs
      → All (λ x. P x × Q x) xs
  All-zip P Q [] h k = tt
  All-zip P Q (x ∷ xs) h k = ((h.0, k.0), All-zip P Q xs h.1 k.1)

module _ {ℓ κ} {A : Type ℓ} where
  -- The converse of `All-keep`.
  pub All-keep_of :
      (P : A → Type κ) (q : A → Bool) (xs : List A)
      → All (λ x. q x ≡ true → P x) xs
      → All P (keep q xs)
  All-keep_of P q [] h = tt
  All-keep_of P q (x ∷ xs) h = elim (Bool-cases (q x)) [
    | inl e ↦ rw e (h.0 e, All-keep_of P q xs h.1)
    | inr e ↦ rw e (All-keep_of P q xs h.1)
  ]

  -- Every two elements that a test passes are related, and so the filtered list.
  pub Pairs-keep :
      (R : A → A → Type κ) (q : A → Bool) (xs : List A)
      → Pairs R (keep q xs)
      → Pairs (λ x y. q x ≡ true → q y ≡ true → R x y) xs
  Pairs-keep R q [] h = tt
  Pairs-keep R q (x ∷ xs) h = elim (Bool-cases (q x)) [
    | inl e ↦
        let k : All (R x) (keep q xs) × Pairs R (keep q xs) = rw e at h in
        (All-map xs (λ y f _ g. f g) (All-keep (R x) q xs k.0), Pairs-keep R q xs k.1)
    | inr e ↦
        let k : Pairs R (keep q xs) = rw e at h in
        (All-tabulate xs (λ y t g. cc), Pairs-keep R q xs k)
  ]

  pub Pairs-keep_of :
      (R : A → A → Type κ) (q : A → Bool) (xs : List A)
      → Pairs (λ x y. q x ≡ true → q y ≡ true → R x y) xs
      → Pairs R (keep q xs)
  Pairs-keep_of R q [] h = tt
  Pairs-keep_of R q (x ∷ xs) h = elim (Bool-cases (q x)) [
    | inl e ↦
        rw e (All-keep_of (R x) q xs (All-map xs (λ y f g. f e g) h.0), Pairs-keep_of R q xs h.1)
    | inr e ↦ rw e (Pairs-keep_of R q xs h.1)
  ]

module _ {ℓ κ μ} {A : Type ℓ} where
  pub Pairs-map :
      {R : A → A → Type κ} {S : A → A → Type μ} (xs : List A)
      → ((x y : A) → R x y → S x y)
      → Pairs R xs
      → Pairs S xs
  Pairs-map [] f h = tt
  Pairs-map (x ∷ xs) f h = (All-map xs (λ y r. f x y r) h.0, Pairs-map xs f h.1)

  pub Pairs-zip :
      (R : A → A → Type κ) (S : A → A → Type μ) (xs : List A)
      → Pairs R xs
      → Pairs S xs
      → Pairs (λ x y. R x y × S x y) xs
  Pairs-zip R S [] h k = tt
  Pairs-zip R S (x ∷ xs) h k = (All-zip (R x) (S x) xs h.0 k.0, Pairs-zip R S xs h.1 k.1)

module _ {ℓ} {A : Type ℓ} where
  -- The first row after one that passes is appended to rows that do not.
  pub first-append_none :
      (p : A → Bool) (a : A) (xs : List A)
      → first p xs ≡ none
      → p a ≡ true
      → first p (xs ++ a ∷ []) ≡ some a
  first-append_none p a [] h t = rw t refl
  first-append_none p a (x ∷ xs) h t = elim (Bool-cases (p x)) [
    | inl e ↦ let k : some x ≡ none = rw e at h in cc
    | inr e ↦ let k : first p xs ≡ none = rw e at h in rw e (first-append_none p a xs k t)
  ]

  -- The row that a query finds passes its test.
  pub first-holds : (p : A → Bool) (xs : List A) {a : A} → first p xs ≡ some a → p a ≡ true
  first-holds p xs e = (All-first (λ x. x ≡ x) p xs e (All-tabulate xs (λ _. refl))).1
