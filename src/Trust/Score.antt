-- ===== src/Trust/Score.antt =====
-- The score: its range, its neutral point, and how penalties fade.
use ndy_hub.Common.{
  Key, Time, Bool, true, false, ◌||◌, none, List, Option-cases, ◌+◌, ◌*◌, ◌≤◌, ◌<◌, ◌≡◌, refl, ◌≢◌,
  ◌↔◌, inl, inr, arith,
}
use ndy_hub.Common.Table.{find, count}
use ndy_hub.Common.Table.Laws.{
  All, In, find-In, In-find, count_none, find_holds, find-none-count, count_zero-find, All-imp,
}
use ndy_hub.Trust.{
  VerificationLevel, level_0, level_1, level_2, level_3, trusted, EventType,
  oauth_token_reuse_detected, device_revoked, User, DeviceApproval, SecurityEvent, Store, Counts,
  day_ms, is_event, is_recent_event, is_trusted_claim, is_unresolved, counts, identity_assurance,
  account_security, device_trust, verified_claims, account_history, penalties, bonuses,
  compute_score, compute_tier, PassportClaim, expired, self_asserted,
}

identity_assurance-le : (u : User) → identity_assurance u ≤ 18
unfolding identity_assurance
identity_assurance-le u = ground arith

account_security-le : (u : User) (c : Counts) → account_security u c ≤ 12
unfolding account_security
account_security-le u c = ground arith

device_trust-le : (c : Counts) → device_trust c ≤ 6
unfolding device_trust
device_trust-le c = ground arith

verified_claims-le : (c : Counts) → verified_claims c ≤ 8
unfolding verified_claims
verified_claims-le c = ground arith

account_history-le : (u : User) (c : Counts) (now : Time) → account_history u c now ≤ 6
unfolding account_history
account_history-le u c now = ground arith

bonuses-le : (u : User) (c : Counts) (now : Time) → bonuses u c now ≤ 50
unfolding bonuses
bonuses-le u c now = omega (
  arith,
  identity_assurance-le u,
  account_security-le u c,
  device_trust-le c,
  verified_claims-le c,
  account_history-le u c now,
)

penalties-le : (c : Counts) → penalties c ≤ 39
unfolding penalties
penalties-le c = ground arith

-- For a user who is not suspended the clamp to 0..100 never acts: the score is the baseline with
-- the bonuses added and the penalties taken away, and lies between 11 and 100.
pub compute_score-exact :
    (business_verified_key : Key) (s : Store) (u : User) (now : Time)
    → u.suspended ≡ false
    → let c = counts business_verified_key s u.id now in
      (compute_score business_verified_key s u now + penalties c ≡ 50 + bonuses u c now)
      × (11 ≤ compute_score business_verified_key s u now)
      × (compute_score business_verified_key s u now ≤ 100)
unfolding compute_score
compute_score-exact k s u now active =
    let c = counts k s u.id now in rw active (omega (arith, bonuses-le u c now, penalties-le c))

-- A security event that is a risk signal for the user happened more than 30 days ago.
abbrev pub IsFaded : Key → Time → SecurityEvent → Type 0
IsFaded user now e =
    is_event user oauth_token_reuse_detected e || is_event user device_revoked e ≡ true
    → e.created_at + 30 * day_ms < now

no_recent_event :
    (user : Key) (t : EventType) (now : Time) (events : List SecurityEvent)
    → ((e : SecurityEvent) → IsFaded user now e → is_recent_event user t now e ≡ false)
    → All (IsFaded user now) events
    → count (is_recent_event user t now) events ≡ 0
no_recent_event user t now events k h =
    count_none (is_recent_event user t now) events
      (All-imp (IsFaded user now) (λ e. is_recent_event user t now e ≡ false) events k h)

-- Risk fades: a user who is not suspended and whose token-reuse and device-revoked events all lie
-- more than 30 days back loses no points, so the score is at least the neutral 50.
pub compute_score-faded :
    (business_verified_key : Key) (s : Store) (u : User) (now : Time)
    → u.suspended ≡ false
    → All (IsFaded u.id now) s.events
    → (penalties (counts business_verified_key s u.id now) ≡ 0)
      × (50 ≤ compute_score business_verified_key s u now)
compute_score-faded k s u now active old =
    let none_left : penalties (counts k s u.id now) ≡ 0 =
      unfold penalties counts in
      ground (
        arith,
        no_recent_event u.id oauth_token_reuse_detected now s.events (λ e f. ground arith) old,
        no_recent_event u.id device_revoked now s.events (λ e f. ground arith) old,
      ) in
    (none_left, omega (arith, none_left, compute_score-exact k s u now active))

-- No row of any table that the score reads belongs to the user.
pub record IsBlank (s : Store) (user : Key) : Type 0 where
  pub passkeys : All (λ p. p ≢ user) s.passkeys
  pub backup_codes : All (λ c. c.user_id ≢ user) s.backup_codes
  pub devices : All (λ d. d.user_id ≢ user) s.devices
  pub device_approvals : All (λ a. a.user_id ≢ user) s.device_approvals
  pub claims : All (λ c. c.user_id ≢ user) s.claims
  pub events : All (λ e. e.user_id ≢ user) s.events

count_blank :
    {A : Type 0} (q : A → Bool) (P : A → Type 0) (rows : List A)
    → ((r : A) → P r → q r ≡ false)
    → All P rows
    → count q rows ≡ 0
count_blank q P rows k h = count_none q rows (All-imp P (λ r. q r ≡ false) rows k h)

counts-blank :
    (k : Key) (s : Store) (user : Key) (now : Time)
    → IsBlank s user
    → let c = counts k s user now in
      (c.passkeys ≡ 0)
      × (c.backup_codes ≡ 0)
      × (c.devices ≡ 0)
      × (c.business_claim ≡ false)
      × (c.third_party_claims ≡ 0)
      × (c.token_reuse_events ≡ 0)
      × (c.device_revoked_events ≡ 0)
      × (c.login_count ≡ 0)
unfolding counts
counts-blank k s user now b = (
  count_blank _ (λ p. p ≢ user) s.passkeys (λ r h. ground arith) b.passkeys,
  count_blank _ (λ p. p.user_id ≢ user) s.backup_codes (λ r h. ground arith) b.backup_codes,
  count_blank _ (λ p. p.user_id ≢ user) s.devices (λ r h. ground arith) b.devices,
  ground (
    arith,
    count_zero-find (is_trusted_claim k user) s.claims (
        count_blank (is_trusted_claim k user) (λ p. p.user_id ≢ user) s.claims (λ r h. ground arith)
          b.claims),
  ),
  count_blank _ (λ p. p.user_id ≢ user) s.claims (λ r h. ground arith) b.claims,
  count_blank _ (λ p. p.user_id ≢ user) s.events (λ r h. ground arith) b.events,
  count_blank _ (λ p. p.user_id ≢ user) s.events (λ r h. ground arith) b.events,
  count_blank _ (λ p. p.user_id ≢ user) s.events (λ r h. ground arith) b.events,
)

-- A new account is neutral: an active user at LEVEL_0 with no second factor, no row in any table
-- that the score reads and an age of at most 90 days scores exactly 50.
pub compute_score-neutral :
    (business_verified_key : Key) (s : Store) (u : User) (now : Time)
    → u.suspended ≡ false
    → u.verification_level ≡ level_0
    → u.totp_enabled_at ≡ none
    → u.sms_phone_e164 ≡ none
    → now ≤ u.created_at + 90 * day_ms
    → IsBlank s u.id
    → compute_score business_verified_key s u now ≡ 50
unfolding compute_score
compute_score-neutral k s u now active level totp sms young b =
    let blank = counts-blank k s u.id now b in
    let c = counts k s u.id now in
    let i : identity_assurance u ≡ 0 = unfold identity_assurance in ground arith in
    let a : account_security u c ≡ 0 = unfold account_security in ground arith in
    let d : device_trust c ≡ 0 = unfold device_trust in ground arith in
    let v : verified_claims c ≡ 0 = unfold verified_claims in ground arith in
    let h : account_history u c now ≡ 0 = unfold account_history in ground arith in
    let p : penalties c ≡ 0 = unfold penalties in ground arith in
    let n : bonuses u c now ≡ 0 = unfold bonuses in omega (arith, i, a, d, v, h) in
    rw active (omega (arith, n, p))

trusted_claim :
    (k user : Key) (c : PassportClaim)
    → is_trusted_claim k user c ≡ true
    → (c.user_id ≡ user) × (c.claim_key ≡ k) × (c.provenance ≢ self_asserted)
trusted_claim k user c h = (ground arith, ground arith, λ e. ground (arith, e))

trusted_claim_holds :
    (k user : Key) (c : PassportClaim)
    → c.user_id ≡ user
    → c.claim_key ≡ k
    → c.provenance ≢ self_asserted
    → is_trusted_claim k user c ≡ true
trusted_claim_holds k user c mine key stood = ground arith

-- The tier is TRUSTED for a user at LEVEL_3 with a business_verified claim that somebody else than
-- the user stands behind, and for nobody else.
pub compute_tier-trusted :
    (business_verified_key : Key) (s : Store) (user : Key) (level : VerificationLevel)
    → compute_tier business_verified_key s user level ≡ trusted
      ↔ (level ≡ level_3)
        × (c : PassportClaim) × In c s.claims
        × (c.user_id ≡ user)
        × (c.claim_key ≡ business_verified_key)
        × (c.provenance ≢ self_asserted)
unfolding compute_tier
compute_tier-trusted k s user level_0 = ((λ e. absurd (cc)), λ h. absurd (cc))
compute_tier-trusted k s user level_1 = ((λ e. absurd (cc)), λ h. absurd (cc))
compute_tier-trusted k s user level_2 = ((λ e. absurd (cc)), λ h. absurd (cc))
compute_tier-trusted k s user level_3 = (
  (λ e. elim (Option-cases (find (is_trusted_claim k user) s.claims)) [
    | inl missing ↦ absurd (ground arith)
    | inr (c, found) ↦
        let (mine, key, stood) =
          trusted_claim k user c (find_holds (is_trusted_claim k user) s.claims found) in
        (refl, c, find-In (is_trusted_claim k user) s.claims found, mine, key, stood)
  ]),
  λ (e, c, i, mine, key, stood). ground (
    arith,
    In-find (is_trusted_claim k user) s.claims c i,
    trusted_claim_holds k user c mine key stood,
  ),
)

-- A device approval request that ran out with no decision counts against its user for good: while
-- it is there, the score's device part gives at most 3 of its 6 points, whatever the devices.
pub expired_approval_costs :
    (business_verified_key : Key) (s : Store) (user : Key) (now : Time) (a : DeviceApproval)
    → In a s.device_approvals
    → a.user_id ≡ user
    → a.status ≡ expired
    → a.approved_at ≡ none
    → a.denied_at ≡ none
    → device_trust (counts business_verified_key s user now) ≤ 3
unfolding device_trust counts
expired_approval_costs k s user now a i u e p d = ground (
  arith,
  find-none-count (is_unresolved user) s.device_approvals,
  count_zero-find (is_unresolved user) s.device_approvals,
  In-find (is_unresolved user) s.device_approvals a i (ground arith),
)
