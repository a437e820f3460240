-- ===== src/Trust/Rows.antt =====
-- The rows that a score is computed from, and the weights, `SCORE` of
-- apps/api/src/trust/trust.service.ts.
use ndy_hub.Common.{ℕ, Key, Time, Bool, Option, List}

pub data VerificationLevel : Type 0 where
  level_0 level_1 level_2 level_3 : VerificationLevel

pub data TrustTier : Type 0 where
  unverified basic verified trusted : TrustTier

pub data Provenance : Type 0 where
  self_asserted ndy_verified third_party_credential : Provenance

-- The security events that the score reads, and the others.
pub data EventType : Type 0 where
  login_success oauth_token_reuse_detected device_revoked other : EventType

pub record User : Type 0 where
  pub id : Key
  pub verification_level : VerificationLevel
  pub created_at : Time
  pub suspended : Bool
  pub totp_enabled_at : Option Time
  pub sms_phone_e164 : Option Key

pub record BackupCode : Type 0 where
  pub user_id : Key
  pub used_at : Option Time

pub record Device : Type 0 where
  pub user_id : Key
  pub revoked_at : Option Time

pub data ApprovalStatus : Type 0 where
  pending approved denied expired : ApprovalStatus

pub record DeviceApproval : Type 0 where
  pub user_id : Key
  pub status : ApprovalStatus
  pub approved_at : Option Time
  pub denied_at : Option Time

pub record PassportClaim : Type 0 where
  pub user_id : Key
  pub claim_key : Key
  pub provenance : Provenance

pub record SecurityEvent : Type 0 where
  pub user_id : Key
  pub type : EventType
  pub created_at : Time

pub record TrustProfile : Type 0 where
  pub user_id : Key
  pub tier : TrustTier
  pub score : ℕ
  pub computed_at : Time

pub record Store : Type 0 where
  pub users : List User
  pub passkeys : List Key
  pub backup_codes : List BackupCode
  pub devices : List Device
  pub device_approvals : List DeviceApproval
  pub claims : List PassportClaim
  pub events : List SecurityEvent
  pub profiles : List TrustProfile

pub data Failure : Type 0 where
  no_such_user : Failure

-- `SCORE`. The penalties are negative in the source and stand here as what they take away.
abbrev pub day_ms : ℕ
day_ms = 86_400_000

pub record Weights : Type 0 where
  pub baseline : ℕ
  pub email_verified : ℕ
  pub phone_verified : ℕ
  pub identity_verified : ℕ
  pub two_factor_enabled : ℕ
  pub passkey_registered : ℕ
  pub recovery_codes : ℕ
  pub known_device : ℕ
  pub all_devices_resolved : ℕ
  pub business_verified : ℕ
  pub third_party_credential : ℕ
  pub account_age : ℕ
  pub sustained_activity : ℕ
  pub account_age_days : ℕ
  pub sustained_logins : ℕ
  pub sustained_span_days : ℕ
  pub penalty_token_reuse : ℕ
  pub penalty_device_revoked_each : ℕ
  pub penalty_device_revoked_cap : ℕ
  pub penalty_decay_days : ℕ
  pub min : ℕ
  pub max : ℕ

abbrev pub score_weights : Weights
score_weights = record {
  baseline = 50;
  email_verified = 6;
  phone_verified = 6;
  identity_verified = 6;
  two_factor_enabled = 6;
  passkey_registered = 4;
  recovery_codes = 2;
  known_device = 3;
  all_devices_resolved = 3;
  business_verified = 5;
  third_party_credential = 3;
  account_age = 3;
  sustained_activity = 3;
  account_age_days = 90;
  sustained_logins = 10;
  sustained_span_days = 60;
  penalty_token_reuse = 30;
  penalty_device_revoked_each = 3;
  penalty_device_revoked_cap = 9;
  penalty_decay_days = 30;
  min = 0;
  max = 100;
}
