-- ===== src/Slug.antt =====
-- Slugs: `TenantSlug` of src/domain/tenant/value_objects.py, the `_slugify` of the use cases that
-- make a slug of a name, and their search for one that nobody has. The two calls of Python's library
-- that read tables of Unicode are arguments.
pub mod Shape
pub mod Free
use schedule_appointments.Base.{
  ℕ, zero, suc, ◌+◌, ◌/◌, ◌%◌, Bool, true, false, ◌&&◌, ◌||◌, [], ◌∷◌, ◌++◌, ltb, leb, ◌==◌,
  is_empty, take, if◌then◌else◌,
}
use schedule_appointments.Base.Text.{Text, strip}
use schedule_appointments.Errors.{Result, ok, err, DomainError, validation, bad_slug, endless}

-- `normalize("NFKD", s).encode("ascii", "ignore").decode("ascii")`, and `s.lower()`.
pub record Unicode : Type 0 where
  pub to_ascii : Text → Text
  pub lower : Text → Text

-- `[a-z0-9]`
abbrev pub is_alnum : ℕ → Bool
is_alnum c = (leb 97 c && leb c 122) || (leb 48 c && leb c 57)

abbrev pub is_dash : ℕ → Bool
is_dash c = c == 45

-- `[a-z0-9-]`
abbrev pub is_slug_char : ℕ → Bool
is_slug_char c = is_alnum c || is_dash c

-- `[a-z0-9-]{0,n}[a-z0-9]`
abbrev pub matches_rest : ℕ → Text → Bool
matches_rest n [] = false
matches_rest n (c ∷ []) = is_alnum c
matches_rest zero (c ∷ d ∷ s) = false
matches_rest (suc n) (c ∷ d ∷ s) = is_slug_char c && matches_rest n (d ∷ s)

-- `[a-z0-9]([a-z0-9-]{0,46}[a-z0-9])?`
abbrev pub matches : Text → Bool
matches [] = false
matches (c ∷ []) = is_alnum c
matches (c ∷ d ∷ s) = is_alnum c && matches_rest 46 (d ∷ s)

-- `$` also stands before a newline that ends the text.
abbrev pub drop_newline : Text → Text
drop_newline [] = []
drop_newline (c ∷ s) = if is_empty s && c == 10 then [] else c ∷ drop_newline s

-- `TenantSlug._PATTERN.match(s)`
unfoldable pub is_slug : Text → Bool
is_slug s = matches (drop_newline s)

-- `TenantSlug(value=s)`
unfoldable pub tenant_slug : Text → Result Text
tenant_slug s = if is_slug s then ok s else err (validation bad_slug)

-- `re.sub("[^a-z0-9]+", "-", s)`; `in_run` where the character before was replaced.
abbrev pub dashed : (in_run : Bool) → Text → Text
dashed in_run [] = []
dashed in_run (c ∷ s) =
    if is_alnum c then c ∷ dashed false s else if in_run then dashed true s else 45 ∷ dashed true s

-- `s.strip("-")`
abbrev pub lstrip_dashes : Text → Text
lstrip_dashes [] = []
lstrip_dashes (c ∷ s) = if is_dash c then lstrip_dashes s else c ∷ s

abbrev pub put_kept : ℕ → Text → Text
put_kept c [] = if is_dash c then [] else c ∷ []
put_kept c (d ∷ s) = c ∷ d ∷ s

abbrev pub rstrip_dashes : Text → Text
rstrip_dashes [] = []
rstrip_dashes (c ∷ s) = put_kept c (rstrip_dashes s)

-- `s or default`
abbrev pub nonempty_or : Text → Text → Text
nonempty_or [] default = default
nonempty_or (c ∷ s) default = c ∷ s

-- What of a text is left before it is cut.
abbrev pub dashes_of : Unicode → Text → Text
dashes_of u s = rstrip_dashes (lstrip_dashes (dashed false (strip (u.lower (u.to_ascii s)))))

-- `_slugify(s)`, with the word that stands for a text without letters and digits.
unfoldable pub slugify : Unicode → (default : Text) → Text → Text
slugify u default s = nonempty_or (take 48 (dashes_of u s)) default

-- `str(n)`: a number has no more digits than its value plus one.
abbrev pub digits : (fuel n : ℕ) → Text → Text
digits zero n s = s
digits (suc fuel) n s = if ltb n 10 then (48 + n) ∷ s else digits fuel (n / 10) ((48 + n % 10) ∷ s)

unfoldable pub decimal : ℕ → Text
decimal n = digits (suc n) n []

-- `f"{base}-{suffix}"`
abbrev pub suffixed : Text → ℕ → Text
suffixed base k = base ++ 45 ∷ decimal k

-- The loops `while slug_exists(slug)`: the suffix is counted up, the next slug is made, which may
-- raise, and past 1000 the search is given up.
module _ (make : Text → Result Text) (taken : Text → Bool) (exhausted : DomainError)
    (base : Text) where
  unfoldable pub next_slug : (fuel k : ℕ) → Text → Result Text
  next_slug zero k slug = err endless
  next_slug (suc n) k slug = elim (taken slug) [
    | false ↦ ok slug
    | true ↦ elim (make (suffixed base (suc k))) [
      | err e ↦ err e
      | ok s ↦ elim (ltb 1000 (suc k)) [ true ↦ err exhausted | false ↦ next_slug n (suc k) s ]
    ]
  ]

  abbrev pub from_first : Result Text → Result Text
  from_first (err e) = err e
  from_first (ok s) = next_slug 1000 1 s

  unfoldable pub unique_slug : Result Text
  unfolding next_slug
  unique_slug = from_first (make base)
