-- ===== src/Auth/Rows.antt =====
-- The tables of the accounts (apps/api/prisma/schema.prisma): of a user only what signing in reads
-- or writes, of a device not its label.
use ndy_hub.Common.{Key, Time, Bool, true, false, Option, none, some, List, ltb, ◌==◌}
use ndy_hub.Common.Table.{update}
use ndy_hub.Trust.{VerificationLevel}

pub record User : Type 0 where
  pub id : Key
  pub ndy_id : Key
  pub email : Key
  pub password_hash : Option Key
  pub verification_level : VerificationLevel
  pub email_verified_at : Option Time
  pub phone_verified_at : Option Time
  pub email_verification_token_hash : Option Key
  pub email_verification_expires_at : Option Time
  pub password_reset_token_hash : Option Key
  pub password_reset_expires_at : Option Time
  pub totp_secret_encrypted : Option Key
  pub totp_enabled_at : Option Time
  pub sms_phone : Option Key
  pub sms_enabled_at : Option Time
  pub challenge_token_hash : Option Key
  pub challenge_expires_at : Option Time
  pub suspended : Bool
  pub deleted_at : Option Time
  pub ndyapps_connected : Bool

pub record Session : Type 0 where
  pub id : Key
  pub user_id : Key
  pub refresh_token_hash : Key
  pub user_agent : Option Key
  pub ip : Option Key
  pub device_id : Option Key
  pub expires_at : Time
  pub revoked_at : Option Time

pub record Device : Type 0 where
  pub id : Key
  pub user_id : Key
  pub device_id : Key
  pub last_seen_at : Time
  pub revoked_at : Option Time

pub record BackupCode : Type 0 where
  pub user_id : Key
  pub code_hash : Key
  pub used_at : Option Time

-- `SecurityEventType`, as far as the modelled services record it.
pub data EventType : Type 0 where
  login_success login_failed new_device password_changed totp_enabled totp_disabled sms_2fa_enabled
        sms_2fa_disabled recovery_code_used device_revoked :
      EventType

pub record SecurityEvent : Type 0 where
  pub user_id : Key
  pub type : EventType
  pub ip : Option Key
  pub user_agent : Option Key

pub record Store : Type 0 where
  pub users : List User
  pub sessions : List Session
  pub devices : List Device
  pub backup_codes : List BackupCode
  pub security_events : List SecurityEvent

-- `SessionMeta`
pub record SessionMeta : Type 0 where
  pub user_agent : Option Key
  pub ip : Option Key
  pub device_id : Option Key

-- `IssuedSession`, with the claims that the access token carries.
pub record IssuedSession : Type 0 where
  pub sub : Key
  pub ndy_id : Key
  pub sid : Key
  pub refresh_token : Key

pub data Failure : Type 0 where
  invalid_refresh_token incorrect_login suspended_account no_such_user no_password wrong_password :
      Failure
  unverified_email two_factor_account email_taken already_verified invalid_code code_used
        unique_violation :
      Failure
  login_expired login_completed incorrect_code already_enabled setup_not_started not_enabled
        phone_taken sms_not_sent :
      Failure
  no_such_device no_such_session : Failure

-- What the repository calls outside: `hash_token` is SHA-256, `hash_password` and `compare` are
-- bcrypt with a drawn salt, `totp_valid` reads the time, and `sms_valid` is the provider's check.
pub record Services : Type 0 where
  pub hash_token : Key → Key
  pub upper : Key → Key
  pub hash_password : Key → Key → Key
  pub compare : Key → Key → Bool
  pub encrypt : Key → Key
  pub decrypt : Key → Key
  pub totp_valid : Key → Key → Time → Bool
  pub sms_valid : Key → Key → Bool

abbrev pub is_user : Key → User → Bool
is_user id u = u.id == id

abbrev pub has_email : Key → User → Bool
has_email email u = u.email == email

-- A nullable column with this value.
abbrev pub is_value : Key → Option Key → Bool
is_value k none = false
is_value k (some v) = v == k

-- An expiry date that is missing or past.
abbrev pub is_over : Time → Option Time → Bool
is_over now none = true
is_over now (some t) = ltb t now

abbrev pub set_user : Key → (User → User) → Store → Store
set_user id f s = record s { users = update (is_user id) f s.users }
