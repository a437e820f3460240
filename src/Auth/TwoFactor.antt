-- ===== src/Auth/TwoFactor.antt =====
-- TotpService, Sms2faService and the methods of an account (apps/api/src/auth/totp.service.ts,
-- sms-2fa.service.ts, two-factor.util.ts). The trust score, which `confirmSetup` of the SMS factor
-- recomputes, and the texting of codes are left out.
pub mod Challenge
pub mod Once
mod Tests
use ndy_hub.Common.{
  ℕ, Key, Time, Bool, true, false, not, ◌&&◌, Option, none, some, List, [], ◌∷◌, ◌++◌, ◌==◌, ◌!=◌,
  if◌then◌else◌, is_some, is_none, ◌+◌, ◌*◌,
}
use ndy_hub.Common.Handler.{ok, Handler, pure, throw_if, or_throw, query, write, ◌>>=◌, ◌>>◌}
use ndy_hub.Common.Table.{find, update, count, delete, insert}
use mathlib.Core.Option
use ndy_hub.Trust.{VerificationLevel, level_0, level_1, level_2, level_3}
use ndy_hub.Auth.Rows.{
  User, BackupCode, totp_enabled, totp_disabled, sms_2fa_enabled, sms_2fa_disabled,
  recovery_code_used, Store, SessionMeta, IssuedSession, Failure, no_such_user, wrong_password,
  login_expired, login_completed, incorrect_code, already_enabled, setup_not_started, not_enabled,
  phone_taken, sms_not_sent, unique_violation, Services, is_user, is_value, is_over, set_user,
}
use ndy_hub.Auth.Sessions.{Fresh, start_session, record_event, record_login, is_new_device}

-- `TwoFactorMethod`
pub data Method : Type 0 where
  totp sms : Method

-- `enabledTwoFactorMethods`
abbrev pub enabled_two_factor_methods : User → List Method
enabled_two_factor_methods u =
    (if is_some u.totp_enabled_at then totp ∷ [] else [])
    ++ (if is_some u.sms_enabled_at then sms ∷ [] else [])

abbrev pub challenge_ttl_ms : ℕ
challenge_ttl_ms = 5 * 60 * 1000

-- What a code matched.
pub data Matched : Type 0 where
  by_totp by_backup by_sms : Matched

abbrev pub is_backup : Matched → Bool
is_backup by_backup = true
is_backup _ = false

abbrev pub has_challenge : Key → User → Bool
has_challenge hash u = is_value hash u.challenge_token_hash

abbrev pub set_challenge : Option Key → Option Time → User → User
set_challenge hash expires u = record u {
  challenge_token_hash = hash;
  challenge_expires_at = expires;
}

-- `findById`
abbrev pub find_by_id : Key → Handler Store Failure User
find_by_id id = do u ← query (λ s. find (is_user id) s.users); or_throw u no_such_user

-- The check of the current password, where there is one.
abbrev pub matches_password : Services → Key → Option Key → Bool
matches_password svc password none = false
matches_password svc password (some h) = svc.compare password h

-- `where: { userId, codeHash, usedAt: null }`
abbrev pub is_unused_code : Key → Key → BackupCode → Bool
is_unused_code user_id hash c = c.user_id == user_id && (c.code_hash == hash && is_none c.used_at)

abbrev pub use_code : Time → BackupCode → BackupCode
use_code now c = record c { used_at = some now }

-- `createMany` of the hashes of the drawn codes
abbrev pub add_codes : (Key → Key) → Key → List Key → List BackupCode → List BackupCode
add_codes hash user_id [] rows = rows
add_codes hash user_id (c ∷ codes) rows =
    add_codes hash user_id codes
      (insert (record { user_id = user_id; code_hash = hash c; used_at = none }) rows)

module _ (svc : Services) where
  abbrev pub hash_backup_code : Key → Key
  hash_backup_code code = svc.hash_token (svc.upper code)

  -- `beginSetup` of TotpService: a secret that is not yet active.
  pub begin_totp : Key → Key → Handler Store Failure Key
  begin_totp user_id secret = do
    u ← find_by_id user_id
    throw_if (is_some u.totp_enabled_at) already_enabled
    write (set_user user_id (λ v. record v { totp_secret_encrypted = some (svc.encrypt secret) }))
    pure secret

  -- `verifyTotpCode`
  abbrev pub verify_totp_code : Key → Key → Time → Bool
  verify_totp_code encrypted code now = svc.totp_valid (svc.decrypt encrypted) code now

  -- `confirmSetup` of TotpService, with the backup codes that it draws.
  pub confirm_totp : Key → Key → List Key → Time → Handler Store Failure (List Key)
  confirm_totp user_id code backup_codes now = do
    u ← find_by_id user_id
    throw_if (is_some u.totp_enabled_at) already_enabled
    secret ← or_throw u.totp_secret_encrypted setup_not_started
    throw_if (not (verify_totp_code secret code now)) incorrect_code
    write (set_user user_id (λ v. record v { totp_enabled_at = some now }))
    write (λ s. record s {
      backup_codes = add_codes hash_backup_code user_id backup_codes s.backup_codes;
    })
    write (record_event user_id totp_enabled none)
    pure backup_codes

  -- The `updateMany` that spends a backup code, with its count.
  pub spend_backup_code : Key → Key → Time → Store → Bool × Store
  spend_backup_code user_id code now s = (
    not (count (is_unused_code user_id (hash_backup_code code)) s.backup_codes == 0),
    record s {
      backup_codes =
          update (is_unused_code user_id (hash_backup_code code)) (use_code now) s.backup_codes;
    },
  )

  -- `verifyCodeOrBackupCode`
  pub verify_code_or_backup_code : Key → Key → Key → Time → Store → Option Matched × Store
  unfolding spend_backup_code
  verify_code_or_backup_code user_id secret code now s =
      if verify_totp_code secret code now
      then (some by_totp, s)
      else let (spent, t) = spend_backup_code user_id code now s in
        ((if spent then some by_backup else none), t)

  -- `disable` of TotpService
  pub disable_totp : Key → Key → Key → Time → Handler Store Failure Unit
  unfolding verify_code_or_backup_code
  disable_totp user_id password code now = do
    u ← find_by_id user_id
    throw_if (is_none u.totp_enabled_at) not_enabled
    secret ← or_throw u.totp_secret_encrypted not_enabled
    throw_if (not (matches_password svc password u.password_hash)) wrong_password
    matched ← λ s. let (m, t) = verify_code_or_backup_code user_id secret code now s in (ok m, t)
    throw_if (is_none matched) incorrect_code
    write
        (set_user user_id (λ v. record v { totp_secret_encrypted = none; totp_enabled_at = none }))
    write (λ s. record s { backup_codes = delete (λ c. c.user_id == user_id) s.backup_codes })
    write (record_event user_id totp_disabled none)

  -- `issueChallenge`
  abbrev pub issue_challenge : Key → Key → Time → Store → Store
  issue_challenge user_id token now =
      set_user user_id (set_challenge (some (svc.hash_token token)) (some (now + challenge_ttl_ms)))

  -- The read of `verifyChallenge`, and all of `resolveUserIdForChallenge`.
  pub find_challenge : Key → Time → Handler Store Failure User
  find_challenge token now = do
    u ← or_throw (← query (λ s. find (has_challenge (svc.hash_token token)) s.users)) login_expired
    throw_if (is_over now u.challenge_expires_at) login_expired
    pure u

  -- The factors that the account has, the authenticator and backup codes before the SMS.
  abbrev pub match_totp : User → Key → Time → Store → Option Matched × Store
  match_totp u code now s = elim u.totp_secret_encrypted [
    | none ↦ (none, s)
    | some secret ↦
        if is_some u.totp_enabled_at
        then verify_code_or_backup_code u.id secret code now s
        else (none, s)
  ]

  abbrev pub match_sms : User → Key → Option Matched
  match_sms u code = elim u.sms_phone [
    | none ↦ none
    | some phone ↦
        if is_some u.sms_enabled_at && svc.sms_valid phone code then some by_sms else none
  ]

  abbrev pub or_sms : User → Key → Option Matched → Option Matched
  or_sms u code none = match_sms u code
  or_sms u code (some m) = some m

  pub match_code : User → Key → Time → Store → Option Matched × Store
  match_code u code now s = let (m, t) = match_totp u code now s in (or_sms u code m, t)

  -- The `updateMany` that redeems the challenge, with its count.
  pub claim_challenge : User → Key → Handler Store Failure Unit
  claim_challenge u token = do
    claimed ←
        query (λ s. count (λ v. is_user u.id v && has_challenge (svc.hash_token token) v) s.users)
    write (λ s. record s {
      users =
          update (λ v. is_user u.id v && has_challenge (svc.hash_token token) v)
            (set_challenge none none) s.users;
    })
    throw_if (claimed == 0) login_completed

  -- What follows a login that succeeded: the session and the events.
  abbrev pub sign_in : Fresh → User → SessionMeta → Time → Handler Store Failure IssuedSession
  sign_in fresh u meta now = do
    is_new ← query (is_new_device u.id meta)
    x ← start_session svc.hash_token fresh u.id u.ndy_id meta now
    write (record_login u.id meta is_new)
    pure x

  pub verify_challenge :
      Fresh → Key → Key → SessionMeta → Time → Handler Store Failure IssuedSession
  unfolding find_challenge match_code claim_challenge
  verify_challenge fresh token code meta now = do
    u ← find_challenge token now
    matched ← λ s. let (m, t) = match_code u code now s in (ok m, t)
    m ← or_throw matched incorrect_code
    claim_challenge u token
    write (λ s. if is_backup m then record_event u.id recovery_code_used (some meta) s else s)
    sign_in fresh u meta now

  -- `beginSetup` of Sms2faService; `sent` is what the provider answers.
  pub begin_sms : Key → Key → Bool → Handler Store Failure Unit
  begin_sms user_id phone sent = do
    u ← find_by_id user_id
    throw_if (is_some u.sms_enabled_at) already_enabled
    existing ← query (λ s. find (λ v. is_value phone v.sms_phone) s.users)
    throw_if (elim existing [ none ↦ false | some v ↦ v.id != user_id ]) phone_taken
    throw_if (not sent) sms_not_sent

  abbrev pub raise_to_2 : VerificationLevel → VerificationLevel
  raise_to_2 level_0 = level_2
  raise_to_2 level_1 = level_2
  raise_to_2 level_2 = level_2
  raise_to_2 level_3 = level_3

  -- `confirmSetup` of Sms2faService. The phone is unique in the table.
  pub confirm_sms : Key → Key → Key → Time → Handler Store Failure Unit
  confirm_sms user_id phone code now = do
    u ← find_by_id user_id
    throw_if (is_some u.sms_enabled_at) already_enabled
    throw_if (not (svc.sms_valid phone code)) incorrect_code
    existing ← query (λ s. find (λ v. is_value phone v.sms_phone && v.id != user_id) s.users)
    throw_if (is_some existing) unique_violation
    write (
        set_user user_id (λ v. record v {
          sms_phone = some phone;
          sms_enabled_at = some now;
          phone_verified_at = elim u.phone_verified_at [ none ↦ some now | some t ↦ some t ];
          verification_level = raise_to_2 u.verification_level;
        }))
    write (record_event user_id sms_2fa_enabled none)

  -- `disable` of Sms2faService
  pub disable_sms : Key → Key → Handler Store Failure Unit
  disable_sms user_id password = do
    u ← find_by_id user_id
    throw_if (is_none u.sms_enabled_at) not_enabled
    throw_if (not (matches_password svc password u.password_hash)) wrong_password
    write (set_user user_id (λ v. record v { sms_phone = none; sms_enabled_at = none }))
    write (record_event user_id sms_2fa_disabled none)
