-- ===== src/Slug/Shape.antt =====
-- What `_slugify` makes of a name, against the pattern of `TenantSlug`.
use schedule_appointments.Base.{
  ℕ, zero, suc, ◌≤◌, ◌<◌, ◌≡◌, refl, ◌∙◌, ap, ◌⊎◌, inl, inr, Bool, true, false, ◌&&◌, [], ◌∷◌,
  arith, length, take, is_empty, ◌==◌, All, Bool-cases,
}
use schedule_appointments.Base.Text.{Text, strip}
use schedule_appointments.Slug.{
  Unicode, is_alnum, is_dash, is_slug_char, matches_rest, matches, drop_newline, is_slug, dashed,
  lstrip_dashes, put_kept, rstrip_dashes, nonempty_or, dashes_of, slugify,
}

abbrev pub AllSlugChars : Text → Type 0
AllSlugChars = All (λ c. is_slug_char c ≡ true)

abbrev pub starts_alnum : Text → Bool
starts_alnum [] = false
starts_alnum (c ∷ s) = is_alnum c

abbrev pub ends_alnum : Text → Bool
ends_alnum [] = false
ends_alnum (c ∷ []) = is_alnum c
ends_alnum (c ∷ d ∷ s) = ends_alnum (d ∷ s)

dashed-AllSlugChars : (b : Bool) (s : Text) → AllSlugChars (dashed b s)
dashed-AllSlugChars b [] = tt
dashed-AllSlugChars true (c ∷ s) = elim (Bool-cases (is_alnum c)) [
  | inl e ↦ rw e (ground arith, dashed-AllSlugChars false s)
  | inr e ↦ rw e (dashed-AllSlugChars true s)
]
dashed-AllSlugChars false (c ∷ s) = elim (Bool-cases (is_alnum c)) [
  | inl e ↦ rw e (ground arith, dashed-AllSlugChars false s)
  | inr e ↦ rw e (refl, dashed-AllSlugChars true s)
]

lstrip_dashes-AllSlugChars :
    (s : Text)
    → AllSlugChars s
    → AllSlugChars (lstrip_dashes s)
      × ((lstrip_dashes s ≡ []) ⊎ (starts_alnum (lstrip_dashes s) ≡ true))
lstrip_dashes-AllSlugChars [] h = (tt, inl refl)
lstrip_dashes-AllSlugChars (c ∷ s) h = elim (Bool-cases (is_dash c)) [
  | inl e ↦ rw e (lstrip_dashes-AllSlugChars s h.1)
  | inr e ↦ rw e (h, inr (ground (arith, h.0, e)))
]

-- A text that `strip("-")` of slug characters can give.
abbrev IsTrimmed : Text → Type 0
IsTrimmed s = AllSlugChars s × ((s ≡ []) ⊎ (ends_alnum s ≡ true))

put_kept-IsTrimmed :
    (c : ℕ) (s : Text) → is_slug_char c ≡ true → IsTrimmed s → IsTrimmed (put_kept c s)
put_kept-IsTrimmed c [] h t = elim (Bool-cases (is_dash c)) [
  | inl e ↦ rw e (tt, inl refl)
  | inr e ↦ rw e ((h, tt), inr (ground (arith, h, e)))
]
put_kept-IsTrimmed c (d ∷ s) h (all, inl e) = absurd (nonempty e)
  where
    nonempty : d ∷ s ≡ [] → ⊥
    nonempty e = cc
put_kept-IsTrimmed c (d ∷ s) h (all, inr e) = ((h, all), inr e)

rstrip_dashes-IsTrimmed : (s : Text) → AllSlugChars s → IsTrimmed (rstrip_dashes s)
rstrip_dashes-IsTrimmed [] h = (tt, inl refl)
rstrip_dashes-IsTrimmed (c ∷ s) h =
    put_kept-IsTrimmed c (rstrip_dashes s) h.0 (rstrip_dashes-IsTrimmed s h.1)

starts-put_kept : (c : ℕ) (s : Text) → is_alnum c ≡ true → starts_alnum (put_kept c s) ≡ true
starts-put_kept c [] h = rw (alnum_no_dash c h) h
  where
    alnum_no_dash : (c : ℕ) → is_alnum c ≡ true → is_dash c ≡ false
    alnum_no_dash c h = ground arith
starts-put_kept c (d ∷ s) h = h

starts-rstrip_dashes : (s : Text) → starts_alnum s ≡ true → starts_alnum (rstrip_dashes s) ≡ true
starts-rstrip_dashes [] h = h
starts-rstrip_dashes (c ∷ s) h = starts-put_kept c (rstrip_dashes s) h

take-AllSlugChars : (n : ℕ) (s : Text) → AllSlugChars s → AllSlugChars (take n s)
take-AllSlugChars zero s h = tt
take-AllSlugChars (suc n) [] h = tt
take-AllSlugChars (suc n) (c ∷ s) h = (h.0, take-AllSlugChars n s h.1)

length-take-le : (n : ℕ) (s : Text) → length (take n s) ≤ n
length-take-le zero s = omega arith
length-take-le (suc n) [] = omega arith
length-take-le (suc n) (c ∷ s) = let le = length-take-le n s in omega arith

take-all : (n : ℕ) (s : Text) → length (take n s) < n → take n s ≡ s
take-all zero s h = absurd (omega arith)
take-all (suc n) [] h = refl
take-all (suc n) (c ∷ s) h = ap (λ t. c ∷ t) (take-all n s (omega arith))

matches_rest-ends_alnum :
    (n : ℕ) (s : Text) → AllSlugChars s → length s ≤ suc n → matches_rest n s ≡ ends_alnum s
matches_rest-ends_alnum n [] h le = refl
matches_rest-ends_alnum n (c ∷ []) h le = refl
matches_rest-ends_alnum zero (c ∷ d ∷ s) h le = absurd (omega arith)
matches_rest-ends_alnum (suc n) (c ∷ d ∷ s) h le =
    rw h.0 (matches_rest-ends_alnum n (d ∷ s) h.1 (omega arith))

matches-ends_alnum :
    (s : Text) → AllSlugChars s → starts_alnum s ≡ true → length s ≤ 48 → matches s ≡ ends_alnum s
matches-ends_alnum [] h t le = refl
matches-ends_alnum (c ∷ []) h t le = refl
matches-ends_alnum (c ∷ d ∷ s) h t le = rw t (matches_rest-ends_alnum 46 (d ∷ s) h.1 (omega arith))

drop_newline-AllSlugChars : (s : Text) → AllSlugChars s → drop_newline s ≡ s
drop_newline-AllSlugChars [] h = refl
drop_newline-AllSlugChars (c ∷ s) h =
    rw (not_newline c h.0 (is_empty s)) (ap (λ t. c ∷ t) (drop_newline-AllSlugChars s h.1))
  where
    not_newline : (c : ℕ) → is_slug_char c ≡ true → (b : Bool) → (b && c == 10) ≡ false
    not_newline c h b = ground arith

pub is_slug-ends_alnum :
    (s : Text) → AllSlugChars s → starts_alnum s ≡ true → length s ≤ 48 → is_slug s ≡ ends_alnum s
unfolding is_slug
is_slug-ends_alnum s h t le =
    ap matches (drop_newline-AllSlugChars s h) ∙ matches-ends_alnum s h t le

starts-take : (n : ℕ) (s : Text) → starts_alnum s ≡ true → starts_alnum (take (suc n) s) ≡ true
starts-take n [] h = h
starts-take n (c ∷ s) h = h

-- What the use cases cut, for a name: nothing, or a text that the pattern takes if it is short.
abbrev IsDashed : Text → Type 0
IsDashed s = (s ≡ []) ⊎ (AllSlugChars s × (starts_alnum s ≡ true) × (ends_alnum s ≡ true))

dashes_of-IsDashed : (u : Unicode) (s : Text) → IsDashed (dashes_of u s)
dashes_of-IsDashed u s =
    trimmed (dashed false (strip (u.lower (u.to_ascii s))))
      (dashed-AllSlugChars false (strip (u.lower (u.to_ascii s))))
  where
    join :
        (s : Text)
        → AllSlugChars s × ((s ≡ []) ⊎ (starts_alnum s ≡ true))
        → IsDashed (rstrip_dashes s)
    join s (all, inl e) = rw e (inl refl)
    join s (all, inr e) = ends (rstrip_dashes-IsTrimmed s all)
      where
        ends : IsTrimmed (rstrip_dashes s) → IsDashed (rstrip_dashes s)
        ends (every, inl f) = inl f
        ends (every, inr f) = inr (every, starts-rstrip_dashes s e, f)

    trimmed : (s : Text) → AllSlugChars s → IsDashed (rstrip_dashes (lstrip_dashes s))
    trimmed s h = join (lstrip_dashes s) (lstrip_dashes-AllSlugChars s h)

-- A text that stands for a name without letters and digits.
abbrev pub IsWord : Text → Type 0
IsWord d = AllSlugChars d × (starts_alnum d ≡ true) × (ends_alnum d ≡ true) × (length d < 48)

-- The shape of what `_slugify` gives: the pattern of a slug, but that it can end in a dash if it has
-- the full 48 characters.
abbrev pub IsSlugged : Text → Type 0
IsSlugged s =
    AllSlugChars s
    × (starts_alnum s ≡ true)
    × (length s ≤ 48)
    × (length s < 48 → ends_alnum s ≡ true)

nonempty_or-starts : (s d : Text) → starts_alnum s ≡ true → nonempty_or s d ≡ s
nonempty_or-starts [] d h = cc
nonempty_or-starts (c ∷ s) d h = refl

cut-IsSlugged : (d s : Text) → IsWord d → IsDashed s → IsSlugged (nonempty_or (take 48 s) d)
cut-IsSlugged d s (all, starts, ends, short) (inl e) = rw e (all, starts, omega arith, λ _. ends)
cut-IsSlugged d s w (inr (all, starts, ends)) =
    let head = starts-take 47 s starts in
    rw (nonempty_or-starts (take 48 s) d head) (
      take-AllSlugChars 48 s all,
      head,
      length-take-le 48 s,
      λ lt. ap ends_alnum (take-all 48 s lt) ∙ ends,
    )

pub slugify-IsSlugged : (u : Unicode) (d s : Text) → IsWord d → IsSlugged (slugify u d s)
unfolding slugify
slugify-IsSlugged u d s w = cut-IsSlugged d (dashes_of u s) w (dashes_of-IsDashed u s)

-- What `_slugify` makes of any name has 1 to 48 characters, all of them lowercase letters, digits
-- and dashes, and begins with no dash; `TenantSlug` takes it exactly if it does not end in a dash,
-- and so whenever it is shorter than 48 characters. The condition on the default word is that of the
-- two words of the program.
pub is_slug-slugify :
    (u : Unicode) (d s : Text)
    → IsWord d
    → IsSlugged (slugify u d s)
      × (is_slug (slugify u d s) ≡ ends_alnum (slugify u d s))
      × (length (slugify u d s) < 48 → is_slug (slugify u d s) ≡ true)
is_slug-slugify u d s w = summary (slugify u d s) (slugify-IsSlugged u d s w)
  where
    summary :
        (t : Text)
        → IsSlugged t
        → IsSlugged t × (is_slug t ≡ ends_alnum t) × (length t < 48 → is_slug t ≡ true)
    summary t (all, starts, le, ends) =
        let same = is_slug-ends_alnum t all starts le in
        ((all, starts, le, ends), same, λ lt. same ∙ ends lt)
