-- ===== src/Campaigns/Claimed.antt =====
-- What a claim of the campaigns keeps from being sent again.
use schedule_appointments.Base.{
  ℕ, ◌≡◌, refl, sym, ◌∙◌, ap, inl, inr, Bool, true, false, ◌&&◌, ◌||◌, List, [], ◌∷◌, ◌++◌, ==_refl,
  arith, ◌==◌, any, All, Pairs, any-append, Bool-cases,
}
use schedule_appointments.Campaigns
use schedule_appointments.Campaigns.{
  DedupeKey, membership_expiring, winback, same_key, Claim, Outgoing, State, Send, is_claim_of,
  mark_sent,
}

-- Two messages about different things.
abbrev pub Differ : Outgoing → Outgoing → Type 0
Differ x y = (y.tenant_id == x.tenant_id && same_key y.dedupe_key x.dedupe_key) ≡ false

abbrev pub IsClaimed : List Claim → Outgoing → Type 0
IsClaimed claims o = any (is_claim_of o.tenant_id o.dedupe_key) claims ≡ true

abbrev pub IsOnce : State → Type 0
IsOnce st = All (IsClaimed st.claims) st.outbox × Pairs Differ st.outbox

same_key_sound : (a b : DedupeKey) → same_key a b ≡ true → a ≡ b
unfolding same_key
same_key_sound (membership_expiring a b) (membership_expiring c d) h =
    let p : a ≡ c = ground arith in
    let q : b ≡ d = ground arith in
    ap (λ x. membership_expiring x b) p ∙ ap (membership_expiring c) q
same_key_sound (winback a b) (winback c d) h =
    let p : a ≡ c = ground arith in
    let q : b ≡ d = ground arith in ap (λ x. winback x b) p ∙ ap (winback c) q
same_key_sound (membership_expiring a b) (winback c d) h = cc
same_key_sound (winback a b) (membership_expiring c d) h = cc

pub any-mark_sent :
    (now : ℕ) (s : Send) (tenant : ℕ) (key : DedupeKey) (claims : List Claim)
    → any (is_claim_of tenant key) (mark_sent now s claims) ≡ any (is_claim_of tenant key) claims
any-mark_sent now s tenant key [] = refl
any-mark_sent now s tenant key (c ∷ cs) =
    elim (Bool-cases (is_claim_of s.tenant_id s.dedupe_key c)) [
      | inl e ↦ rw (e, any-mark_sent now s tenant key cs) refl
      | inr e ↦ rw (e, any-mark_sent now s tenant key cs) refl
    ]

same_key_refl : (k : DedupeKey) → same_key k k ≡ true
unfolding same_key
same_key_refl (membership_expiring a b) = ground arith
same_key_refl (winback a b) = ground arith

or_left : (a b : Bool) → a ≡ true → (a || b) ≡ true
or_left a b h = ground arith

or_right : (a b : Bool) → b ≡ true → (a || (b || false)) ≡ true
or_right a b h = ground arith

pub IsClaimed-later :
    (c : Claim) (claims : List Claim) (o : Outgoing)
    → IsClaimed claims o
    → IsClaimed (claims ++ c ∷ []) o
IsClaimed-later c claims o h =
    any-append (is_claim_of o.tenant_id o.dedupe_key) claims (c ∷ []) ∙ or_left _ _ h

pub claimed_now :
    (s : Send) (claims : List Claim)
    → any (is_claim_of s.tenant_id s.dedupe_key) (claims ++ Campaigns.claim s ∷ []) ≡ true
claimed_now s claims =
    any-append (is_claim_of s.tenant_id s.dedupe_key) claims (Campaigns.claim s ∷ [])
    ∙ or_right (any (is_claim_of s.tenant_id s.dedupe_key) claims)
        (s.tenant_id == s.tenant_id && same_key s.dedupe_key s.dedupe_key)
        (rw (==_refl s.tenant_id, same_key_refl s.dedupe_key) refl)

-- A message that was claimed is not about what nobody claimed.
pub unclaimed :
    (claims : List Claim) (o : Outgoing) (tenant : ℕ) (key : DedupeKey)
    → any (is_claim_of tenant key) claims ≡ false
    → IsClaimed claims o
    → (tenant == o.tenant_id && same_key key o.dedupe_key) ≡ false
unclaimed claims o tenant key k h =
    elim (Bool-cases (tenant == o.tenant_id && same_key key o.dedupe_key)) [
      | inr e ↦ e
      | inl e ↦ absurd (clash (sym h ∙ (sym (moved (tenants e) (keys e)) ∙ k)))
    ]
  where
    clash : true ≡ false → ⊥
    clash e = cc

    tenants : (tenant == o.tenant_id && same_key key o.dedupe_key) ≡ true → tenant ≡ o.tenant_id
    tenants e = ground arith

    keys : (tenant == o.tenant_id && same_key key o.dedupe_key) ≡ true → key ≡ o.dedupe_key
    keys e = same_key_sound key o.dedupe_key (ground arith)

    moved :
        tenant ≡ o.tenant_id
        → key ≡ o.dedupe_key
        → any (is_claim_of tenant key) claims ≡ any (is_claim_of o.tenant_id o.dedupe_key) claims
    moved p q =
        ap (λ t. any (is_claim_of t key) claims) p
        ∙ ap (λ k. any (is_claim_of o.tenant_id k) claims) q
