-- ===== src/Trust.antt =====
-- TrustService (apps/api/src/trust/trust.service.ts): the tier and the 0-100 score of a user,
-- computed from the tables that `recompute` reads. A cutoff `now - span` is compared as
-- `created_at + span` with `now`, which agrees with it at every time.
pub mod Rows
pub mod Score
pub mod Profile
mod Tests
pub use ndy_hub.Trust.Rows.{
  VerificationLevel, TrustTier, Provenance, EventType, User, BackupCode, Device, ApprovalStatus,
  DeviceApproval, PassportClaim, SecurityEvent, TrustProfile, Store, Failure, Weights, level_0,
  level_1, level_2, level_3, unverified, basic, verified, trusted, self_asserted, ndy_verified,
  third_party_credential, login_success, oauth_token_reuse_detected, device_revoked, other, pending,
  approved, denied, expired, no_such_user, day_ms, score_weights,
}
use ndy_hub.Common.{
  ℕ, Key, Time, Bool, true, false, not, ◌&&◌, ◌||◌, none, some, List, ltb, leb, ◌==◌, if◌then◌else◌,
  is_some, is_none, ◌+◌, ◌-◌, ◌*◌, min, max,
}
use ndy_hub.Common.Handler.{Handler, pure, or_throw, query, write, ◌>>=◌, ◌>>◌}
use ndy_hub.Common.Table.{find, update, count, insert}

abbrev pub is_level : VerificationLevel → VerificationLevel → Bool
is_level level_0 level_0 = true
is_level level_1 level_1 = true
is_level level_2 level_2 = true
is_level level_3 level_3 = true
is_level _ _ = false

abbrev pub is_self_asserted : Provenance → Bool
is_self_asserted self_asserted = true
is_self_asserted _ = false

abbrev pub is_third_party : Provenance → Bool
is_third_party third_party_credential = true
is_third_party _ = false

abbrev pub same_type : EventType → EventType → Bool
same_type login_success login_success = true
same_type oauth_token_reuse_detected oauth_token_reuse_detected = true
same_type device_revoked device_revoked = true
same_type other other = true
same_type _ _ = false

-- `TRUSTED_TIER_CLAIM_KEYS` has one key, 'business_verified'; the parameter stands for it.
module _ (business_verified_key : Key) where
  abbrev pub is_trusted_claim : Key → PassportClaim → Bool
  is_trusted_claim user c =
      c.user_id == user
      && c.claim_key == business_verified_key
      && not (is_self_asserted c.provenance)

abbrev pub is_event : Key → EventType → SecurityEvent → Bool
is_event user t e = e.user_id == user && same_type e.type t

-- `createdAt: { gte: decayCutoff }`
abbrev pub is_recent_event : Key → EventType → Time → SecurityEvent → Bool
is_recent_event user t now e =
    is_event user t e && leb now (e.created_at + score_weights.penalty_decay_days * day_ms)

-- `createdAt: { lte: sustainedSpanCutoff }`
abbrev pub is_old_event : Key → EventType → Time → SecurityEvent → Bool
is_old_event user t now e =
    is_event user t e && leb (e.created_at + score_weights.sustained_span_days * day_ms) now

-- What the queries of `computeScore` return.
pub record Counts : Type 0 where
  pub passkeys : ℕ
  pub backup_codes : ℕ
  pub devices : ℕ
  pub unresolved_device_approvals : ℕ
  pub business_claim : Bool
  pub third_party_claims : ℕ
  pub token_reuse_events : ℕ
  pub device_revoked_events : ℕ
  pub login_count : ℕ
  pub login_old_enough : Bool
  pub any_security_flag : ℕ

abbrev pub is_unresolved : Key → DeviceApproval → Bool
is_unresolved user a = a.user_id == user && is_none a.approved_at && is_none a.denied_at

pub counts : Key → Store → Key → Time → Counts
counts business_verified_key s user now = record {
  passkeys = count (λ p. p == user) s.passkeys;
  backup_codes = count (λ c. c.user_id == user && is_none c.used_at) s.backup_codes;
  devices = count (λ d. d.user_id == user && is_none d.revoked_at) s.devices;
  unresolved_device_approvals = count (is_unresolved user) s.device_approvals;
  business_claim = is_some (find (is_trusted_claim business_verified_key user) s.claims);
  third_party_claims = count (λ c. c.user_id == user && is_third_party c.provenance) s.claims;
  token_reuse_events = count (is_recent_event user oauth_token_reuse_detected now) s.events;
  device_revoked_events = count (is_recent_event user device_revoked now) s.events;
  login_count = count (is_event user login_success) s.events;
  login_old_enough = is_some (find (is_old_event user login_success now) s.events);
  any_security_flag = count (is_event user oauth_token_reuse_detected) s.events;
}

abbrev pub points : Bool → ℕ → ℕ
points test n = if test then n else 0

-- The sections of `computeScore`, one after the other.
pub identity_assurance : User → ℕ
identity_assurance u =
    points (not (is_level u.verification_level level_0)) score_weights.email_verified
    + points (is_level u.verification_level level_2 || is_level u.verification_level level_3)
        score_weights.phone_verified
    + points (is_level u.verification_level level_3) score_weights.identity_verified

pub account_security : User → Counts → ℕ
account_security u c =
    points (is_some u.totp_enabled_at || is_some u.sms_phone_e164) score_weights.two_factor_enabled
    + points (ltb 0 c.passkeys) score_weights.passkey_registered
    + points (ltb 0 c.backup_codes) score_weights.recovery_codes

pub device_trust : Counts → ℕ
device_trust c =
    points (ltb 0 c.devices) score_weights.known_device
    + points (ltb 0 c.devices && c.unresolved_device_approvals == 0)
        score_weights.all_devices_resolved

pub verified_claims : Counts → ℕ
verified_claims c =
    points c.business_claim score_weights.business_verified
    + points (ltb 0 c.third_party_claims) score_weights.third_party_credential

pub account_history : User → Counts → Time → ℕ
account_history u c now =
    points (ltb (u.created_at + score_weights.account_age_days * day_ms) now)
      score_weights.account_age
    + points
        (leb score_weights.sustained_logins c.login_count
          && c.login_old_enough
          && c.any_security_flag == 0)
        score_weights.sustained_activity

-- `Math.max(cap, each * n)` of two negative numbers takes away the smaller of the two.
pub penalties : Counts → ℕ
penalties c =
    points (ltb 0 c.token_reuse_events) score_weights.penalty_token_reuse
    + (if ltb 0 c.device_revoked_events
        then min score_weights.penalty_device_revoked_cap
            (score_weights.penalty_device_revoked_each * c.device_revoked_events)
        else 0)

pub bonuses : User → Counts → Time → ℕ
unfolding identity_assurance account_security device_trust verified_claims account_history
bonuses u c now =
    identity_assurance u
    + account_security u c
    + device_trust c
    + verified_claims c
    + account_history u c now

-- `computeScore`. The score before its clamp is at least 11 (`Trust.Score`), so that the
-- subtraction never meets 0.
pub compute_score : Key → Store → User → Time → ℕ
unfolding bonuses penalties counts
compute_score business_verified_key s u now =
    if u.suspended
    then score_weights.min
    else max score_weights.min (
        min score_weights.max (
          score_weights.baseline
          + bonuses u (counts business_verified_key s u.id now) now
          - penalties (counts business_verified_key s u.id now)))

-- `computeTier`
pub compute_tier : Key → Store → Key → VerificationLevel → TrustTier
compute_tier business_verified_key s user level_0 = unverified
compute_tier business_verified_key s user level_1 = unverified
compute_tier business_verified_key s user level_2 = basic
compute_tier business_verified_key s user level_3 =
    if is_some (find (is_trusted_claim business_verified_key user) s.claims)
    then trusted
    else verified

abbrev pub is_profile : Key → TrustProfile → Bool
is_profile user p = p.user_id == user

pub upsert : TrustProfile → List TrustProfile → List TrustProfile
upsert p profiles =
    if is_some (find (is_profile p.user_id) profiles)
    then update (is_profile p.user_id)
        (λ q. record q { tier = p.tier; score = p.score; computed_at = p.computed_at }) profiles
    else insert p profiles

pub recompute : Key → Key → Time → Handler Store Failure TrustProfile
recompute business_verified_key user now = do
  u ← or_throw (← query (λ s. find (λ v. v.id == user) s.users)) no_such_user
  tier ← query (λ s. compute_tier business_verified_key s user u.verification_level)
  score ← query (λ s. compute_score business_verified_key s u now)
  let p : TrustProfile = record { user_id = user; tier = tier; score = score; computed_at = now }
  write (λ s. record s { profiles = upsert p s.profiles })
  pure p

-- `getTrustProfile`
pub get_trust_profile : Store → Key → Time → TrustProfile
get_trust_profile s user now = elim (find (is_profile user) s.profiles) [
  | some p ↦ p
  | none ↦ record {
    user_id = user;
    tier = unverified;
    score = score_weights.baseline;
    computed_at = now;
  }
]
