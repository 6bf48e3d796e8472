-- ===== src/Slug/Free.antt =====
-- The search of the use cases for a slug that nobody has: it ends, with the first free one.
use schedule_appointments.Base.{
  ℕ, zero, suc, ◌+◌, ◌≤◌, ◌<◌, ◌≡◌, refl, sym, subst, ◌⊎◌, inl, inr, Bool, true, false, arith, ltb,
  Bool-cases,
}
use schedule_appointments.Base.Text.{Text}
use schedule_appointments.Errors.{Result, ok, err, DomainError}
use schedule_appointments.Slug.{suffixed, next_slug, unique_slug}

-- The slugs in the order in which they are tried: the base, then with the suffixes from 2.
abbrev pub candidate : Text → ℕ → Text
candidate base zero = base
candidate base (suc k) = suffixed base (suc (suc k))

Result-cases : (r : Result Text) → ((s : Text) × (r ≡ ok s)) ⊎ ((e : DomainError) × (r ≡ err e))
Result-cases (ok s) = inl (s, refl)
Result-cases (err e) = inr (e, refl)

module _ (make : Text → Result Text) (taken : Text → Bool) (base : Text) where
  abbrev pub IsTaken : ℕ → Type 0
  IsTaken j = (s : Text) × (make (candidate base j) ≡ ok s) × (taken s ≡ true)

  -- How a search can end: with the first candidate that is free, with the exception of the first that
  -- cannot be made, or given up after a thousand that somebody has.
  pub data Ends (exhausted : DomainError) : Result Text → Type 0 where
    found :
        (k : ℕ) (s : Text)
        → k < 1000
        → make (candidate base k) ≡ ok s
        → taken s ≡ false
        → ((j : ℕ) → j < k → IsTaken j)
        → Ends exhausted (ok s)
    unmade :
        (k : ℕ) (e : DomainError)
        → k ≤ 1000
        → make (candidate base k) ≡ err e
        → ((j : ℕ) → j < k → IsTaken j)
        → Ends exhausted (err e)
    given_up : ((j : ℕ) → j < 1000 → IsTaken j) → Ends exhausted (err exhausted)

  tried_one_more :
      (k : ℕ) → ((j : ℕ) → j < k → IsTaken j) → IsTaken k → (j : ℕ) → j < suc k → IsTaken j
  tried_one_more k h t j lt = split (le_cases lt)
    where
      le_cases : j < suc k → (j < k) ⊎ (j ≡ k)
      le_cases lt = omega arith

      split : (j < k) ⊎ (j ≡ k) → IsTaken j
      split (inl l) = h j l
      split (inr e) = subst IsTaken (sym e) t

  module _ (exhausted : DomainError) where
    abbrev Search : ℕ → ℕ → Text → Result Text
    Search = next_slug make taken exhausted base

    next_slug-Ends :
        (n i : ℕ) (slug : Text)
        → n + i ≡ 1000
        → i < 1000
        → make (candidate base i) ≡ ok slug
        → ((j : ℕ) → j < i → IsTaken j)
        → Ends exhausted (Search n (suc i) slug)
    unfolding next_slug
    next_slug-Ends zero i slug e lt m h = absurd (omega arith)
    next_slug-Ends (suc n) i slug e lt m h = elim (Bool-cases (taken slug)) [
      | inr f ↦ rw (next_slug, f) (found i slug lt m f h)
      | inl t ↦
          let tried = tried_one_more i h (slug, m, t) in
          elim (Result-cases (make (candidate base (suc i)))) [
            | inr (x, f) ↦ rw (next_slug, t, f) (unmade (suc i) x (omega arith) f tried)
            | inl (s, f) ↦ elim (Bool-cases (ltb 1000 (suc (suc i)))) [
              | inl g ↦ rw (next_slug, t, f, g) (given_up (λ j l. tried j (ground arith)))
              | inr g ↦
                  rw (next_slug, t, f, g)
                    (next_slug-Ends n (suc i) s (omega arith) (ground arith) f tried)
            ]
          ]
    ]

    -- The search for a slug ends with the first of a thousand candidates that nobody has, with the
    -- exception that making a candidate raised, all the earlier ones being taken, or, where all the
    -- thousand are taken, with the exception for giving up.
    pub unique_slug-Ends : Ends exhausted (unique_slug make taken exhausted base)
    unfolding unique_slug
    unique_slug-Ends = elim (Result-cases (make base)) [
      | inr (e, f) ↦ rw f (unmade 0 e (omega arith) f (λ j l. absurd (omega arith)))
      | inl (s, f) ↦
          rw f (next_slug-Ends 1000 0 s refl (omega arith) f (λ j l. absurd (omega arith)))
    ]

-- A slug that the search finds was made of a candidate and is free.
pub Ends-ok :
    (make : Text → Result Text) (taken : Text → Bool) (base : Text) (exhausted : DomainError)
    {s : Text}
    → Ends make taken base exhausted (ok s)
    → (k : ℕ) × (make (candidate base k) ≡ ok s) × (taken s ≡ false)
Ends-ok make taken base exhausted (Ends.found k s lt m f h) = (k, m, f)
