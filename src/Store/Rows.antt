-- ===== src/Store/Rows.antt =====
-- Writing a row: `session.add` appends it, and `session.merge` replaces the row with its primary key.
use schedule_appointments.Base.{
  true, some, sym, ap, subst, ◌∙◌, ==_refl, ==_false, first, All-first, keep, ◌++◌, ℕ, ◌+◌, ◌≤◌,
  ◌≡◌, ◌≢◌, refl, inl, inr, Bool, ◌&&◌, not, List, [], ◌∷◌, arith, ◌==◌, ==_sound, if◌then◌else◌,
  count, All, All-map, Pairs, Bool-cases,
}

module _ {ℓ} {A : Type ℓ} (key : A → ℕ) where
  unfoldable pub merge : A → List A → List A
  merge a [] = a ∷ []
  merge a (x ∷ xs) = if key x == key a then a ∷ xs else x ∷ merge a xs

  -- No two rows have the same key.
  abbrev pub Unique : List A → Type 0
  Unique = Pairs (λ x y. key y ≢ key x)

  pub All-merge {κ} : (P : A → Type κ) (a : A) (xs : List A) → All P xs → P a → All P (merge a xs)
  unfolding merge
  All-merge P a [] h p = (p, tt)
  All-merge P a (x ∷ xs) h p = elim (Bool-cases (key x == key a)) [
    | inl e ↦ rw e (p, h.1)
    | inr e ↦ rw e (h.0, All-merge P a xs h.1 p)
  ]

  -- A relation that the new row has both ways with each row of another key is kept.
  pub Pairs-merge {κ} :
      (R : A → A → Type κ) (a : A) (xs : List A)
      → Unique xs
      → Pairs R xs
      → All (λ x. key x ≢ key a → R x a × R a x) xs
      → Pairs R (merge a xs)
  unfolding merge
  Pairs-merge R a [] u h k = (tt, tt)
  Pairs-merge R a (x ∷ xs) u h k = elim (Bool-cases (key x == key a)) [
    | inl e ↦ rw e (replaced (==_sound (key x) (key a) e) xs u.0 k.1, h.1)
    | inr e ↦ rw e (All-merge (R x) a xs h.0 (k.0 (ground arith)).0, Pairs-merge R a xs u.1 h.1 k.1)
  ]
    where
      replaced :
          key x ≡ key a
          → (ys : List A) → All (λ y. key y ≢ key x) ys
          → All (λ y. key y ≢ key a → R y a × R a y) ys
          → All (R a) ys
      replaced e [] v w = tt
      replaced e (y ∷ ys) v w = ((w.0 (λ f. v.0 (ground arith))).1, replaced e ys v.1 w.1)

  pub Unique-merge : (a : A) (xs : List A) → Unique xs → Unique (merge a xs)
  Unique-merge a xs u = Pairs-merge (λ x y. key y ≢ key x) a xs u u (others xs)
    where
      others : (ys : List A) → All (λ x. key x ≢ key a → (key a ≢ key x) × (key x ≢ key a)) ys
      others [] = tt
      others (y ∷ ys) = (λ h. (λ e. h (ground arith), h), others ys)

  -- Of the rows that a test passes, only the new one can have its key.
  pub count-merge :
      (p : A → Bool) (a : A) (xs : List A)
      → Unique xs
      → count p (merge a xs) ≤ count (λ x. not (key x == key a) && p x) xs + (if p a then 1 else 0)
  unfolding merge
  count-merge p a [] u = ground arith
  count-merge p a (x ∷ xs) u = elim (Bool-cases (key x == key a)) [
    | inl e ↦
        let same = rest xs (All-map xs (λ y (n : key y ≢ key x). λ f. n (ground arith)) u.0) in
        ground (arith, same)
    | inr e ↦ ground (arith, count-merge p a xs u.1)
  ]
    where
      rest :
          (ys : List A)
          → All (λ y. key y ≢ key a) ys
          → count (λ y. not (key y == key a) && p y) ys ≡ count p ys
      rest [] v = refl
      rest (y ∷ ys) v = ground (arith, rest ys v.1)

module _ {ℓ} {A : Type ℓ} (key : A → ℕ) where
  -- The first row that passes a test is still the first one after it is written again.
  pub first-merge :
      (p : A → Bool) (a c : A) (xs : List A)
      → Unique key xs
      → first p xs ≡ some c
      → key c ≡ key a
      → p a ≡ true
      → first p (merge key a xs) ≡ some a
  unfolding merge
  first-merge p a c [] u h k t = cc
  first-merge p a c (x ∷ xs) u h k t = elim (Bool-cases (p x)) [
    | inl e ↦
        let f : some x ≡ some c = rw e at h in
        let same : x ≡ c = some_injective f in rw (ap key same ∙ k, ==_refl (key a), t) refl
    | inr e ↦
        let f : first p xs ≡ some c = rw e at h in
        let other : key c ≢ key x = (All-first (λ y. key y ≢ key x) p xs f u.0).0 in
        rw (==_false (key x) (key a) (λ s. other (k ∙ sym s)), e) (first-merge p a c xs u.1 f k t)
  ]
    where
      some_injective : {x y : A} → some x ≡ some y → x ≡ y
      some_injective h = cc

  -- A row that a query finds is related to every row of another key.
  pub Pairs-first {κ} :
      (R : A → A → Type κ) (p : A → Bool) (c : A) (xs : List A)
      → ((x y : A) → R x y → R y x)
      → Pairs R xs
      → first p xs ≡ some c
      → All (λ x. key x ≢ key c → R x c) xs
  Pairs-first R p c [] s h f = tt
  Pairs-first R p c (x ∷ xs) s h f = elim (Bool-cases (p x)) [
    | inl e ↦
        let g : some x ≡ some c = rw e at f in
        let same : x ≡ c = some_injective g in
        (λ n. absurd (n (ap key same)), All-map xs (λ y r _. s c y (subst (λ z. R z y) same r)) h.0)
    | inr e ↦
        let g : first p xs ≡ some c = rw e at f in
        (λ n. (All-first (R x) p xs g h.0).0, Pairs-first R p c xs s h.1 g)
  ]
    where
      some_injective : {x y : A} → some x ≡ some y → x ≡ y
      some_injective h = cc

-- The rows of other tenants, which a write to a tenant's own row leaves as they are.
module _ {A : Type 0} (owner : A → ℕ) (tenant : ℕ) where
  abbrev pub foreign : A → Bool
  foreign a = not (owner a == tenant)

  pub foreign-append_own :
      (a : A) (xs : List A) → owner a ≡ tenant → keep foreign (xs ++ a ∷ []) ≡ keep foreign xs
  foreign-append_own a [] h = rw (h, ==_refl tenant) refl
  foreign-append_own a (x ∷ xs) h = ground (arith, foreign-append_own a xs h)

module _ {A : Type 0} (key owner : A → ℕ) (tenant : ℕ) where
  pub foreign-merge_own :
      (a : A) {c : A} (xs : List A)
      → Unique key xs
      → first (λ x. key x == key a && owner x == tenant) xs ≡ some c
      → owner a ≡ tenant
      → keep (foreign owner tenant) (merge key a xs) ≡ keep (foreign owner tenant) xs
  unfolding merge
  foreign-merge_own a [] u f h = cc
  foreign-merge_own a {c} (x ∷ xs) u f h = elim (Bool-cases (key x == key a)) [
    | inr e ↦
        let later : first (λ x. key x == key a && owner x == tenant) xs ≡ some c = rw e at f in
        rw e (ground (arith, foreign-merge_own a xs u.1 later h))
    | inl e ↦ elim (Bool-cases (owner x == tenant)) [
      | inl o ↦ rw (e, o, h, ==_refl tenant) refl
      | inr o ↦
          let later : first (λ x. key x == key a && owner x == tenant) xs ≡ some c =
            rw (e, o) at f in
          let found =
            All-first (λ y. key y ≢ key x) (λ x. key x == key a && owner x == tenant) xs later
              u.0 in
          absurd (found.0 (same_key (owner c == tenant) found.1 e))
    ]
  ]
    where
      same_key : (b : Bool) → (key c == key a && b) ≡ true → (key x == key a) ≡ true → key c ≡ key x
      same_key b h k = ground arith
