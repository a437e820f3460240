-- ===== src/Auth/Account.antt =====
-- AuthService (apps/api/src/auth/auth.service.ts), apart from passwords (Auth/Password), the QR
-- login (Auth/LoginRequest) and the profile, with `createUser` of IdentityService
-- (apps/api/src/identity/identity.service.ts); the personal workspace that `createUser` asks for
-- may fail and is left out. The profile fields are left out.
pub mod Login
pub mod Confirm
mod Tests
use ndy_hub.Common.{
  ℕ, Key, Time, Bool, false, not, ◌&&◌, Option, none, some, List, [], ◌∷◌, ◌==◌, ◌!=◌,
  if◌then◌else◌, is_some, is_none, ◌+◌, ◌*◌,
}
use ndy_hub.Common.Handler.{
  ok, err, Handler, pure, throw, throw_if, or_throw, query, write, ◌>>=◌, ◌>>◌,
}
use ndy_hub.Common.Table.{find, update, count, insert}
use mathlib.Core.Option
use ndy_hub.Trust.{VerificationLevel, level_0, level_1, level_2, level_3}
use ndy_hub.Auth.Rows.{
  User, login_failed, Store, SessionMeta, IssuedSession, Failure, incorrect_login,
  suspended_account, unverified_email, two_factor_account, email_taken, already_verified,
  invalid_code, code_used, unique_violation, Services, is_user, has_email, is_value, is_over,
  set_user,
}
use ndy_hub.Auth.Sessions.{Fresh, start_session, record_event, record_login}
use ndy_hub.Auth.TwoFactor.{
  Method, enabled_two_factor_methods, find_by_id, issue_challenge, sign_in,
}

abbrev pub email_verification_ttl_ms : ℕ
email_verification_ttl_ms = (4 * 60 + 59) * 1000

-- What `login` answers; `asks_email_verification` carries the address.
pub data LoginAnswer : Type 0 where
  signed_in : IssuedSession → LoginAnswer
  asks_2fa : Key → List Method → LoginAnswer
  asks_email_verification : Key → LoginAnswer

abbrev pub new_user : Key → Key → Key → Key → User
new_user id ndy_id email password_hash = record {
  id = id;
  ndy_id = ndy_id;
  email = email;
  password_hash = some password_hash;
  verification_level = level_0;
  email_verified_at = none;
  phone_verified_at = none;
  email_verification_token_hash = none;
  email_verification_expires_at = none;
  password_reset_token_hash = none;
  password_reset_expires_at = none;
  totp_secret_encrypted = none;
  totp_enabled_at = none;
  sms_phone = none;
  sms_enabled_at = none;
  challenge_token_hash = none;
  challenge_expires_at = none;
  suspended = false;
  deleted_at = none;
  ndyapps_connected = false;
}

abbrev pub has_ndy_id : Key → User → Bool
has_ndy_id k u = u.ndy_id == k

-- The loop of `createUser` over the NDY IDs that its attempts draw: a taken one is drawn again, and
-- after the last attempt the exception of the database is thrown on.
pub place_user : Key → Key → Key → List Key → Handler Store Failure User
place_user id email hash [] s = (err unique_violation, s)
place_user id email hash (k ∷ attempts) s =
    let again = place_user id email hash attempts s in
    if is_some (find (has_ndy_id k) s.users) then again else (
      ok (new_user id k email hash),
      record s { users = insert (new_user id k email hash) s.users },
    )

pub create_user : Key → Key → Key → List Key → Handler Store Failure User
unfolding place_user
create_user id email hash attempts = do
  throw_if (← query (λ s. is_some (find (has_email email) s.users))) email_taken
  place_user id email hash attempts

module _ (svc : Services) where
  -- `issueAndSendVerificationEmail`. The hash is unique in the table, over all accounts.
  pub issue_verification_code : Key → Key → Time → Handler Store Failure Unit
  issue_verification_code user_id code now = do
    throw_if
        (← query (λ s. is_some (
          find
            (λ v. is_value (svc.hash_token code) v.email_verification_token_hash && v.id != user_id)
            s.users)))
        unique_violation
    write (
        set_user user_id (λ v. record v {
          email_verification_token_hash = some (svc.hash_token code);
          email_verification_expires_at = some (now + email_verification_ttl_ms);
        }))

  -- The two ends of `register`.
  abbrev pub sign_in_unchecked :
      Fresh → User → SessionMeta → Time → Handler Store Failure LoginAnswer
  sign_in_unchecked fresh u meta now = do
    write (set_user u.id (λ v. record v { email_verified_at = some now }))
    x ← start_session svc.hash_token fresh u.id u.ndy_id meta now
    write (record_login u.id meta false)
    pure (signed_in x)

  abbrev pub ask_verification : User → Key → Time → Handler Store Failure LoginAnswer
  ask_verification u code now = do
    issue_verification_code u.id code now
    pure (asks_email_verification u.email)

  -- `register`; the account of the development shortcut is verified and signed in at once.
  pub register :
      Key
      → Key
      → Key
      → Key
      → Key
      → List Key
      → Key
      → Fresh
      → SessionMeta
      → Time
      → Handler Store Failure LoginAnswer
  unfolding create_user issue_verification_code
  register dev_email id email password salt attempts code fresh meta now = do
    u ← create_user id email (svc.hash_password salt password) attempts
    if email == dev_email then sign_in_unchecked fresh u meta now else ask_verification u code now

  -- The account with this address whose password the hash fits.
  pub check_password : Key → Key → (User → Store → Store) → Handler Store Failure User
  check_password email password on_mismatch = do
    u ← or_throw (← query (λ s. find (has_email email) s.users)) incorrect_login
    hash ← or_throw u.password_hash incorrect_login
    if svc.compare password hash then pure u else (do write (on_mismatch u); throw incorrect_login)

  -- The end of `login`: a session, or a challenge where the account has a second factor.
  abbrev pub second_step :
      Key → Fresh → User → SessionMeta → Time → Handler Store Failure LoginAnswer
  second_step challenge fresh u meta now = elim (enabled_two_factor_methods u) [
    | [] ↦ (do x ← sign_in svc fresh u meta now; pure (signed_in x))
    | m ∷ ms ↦ (do
      write (issue_challenge svc u.id challenge now)
      pure (asks_2fa challenge (m ∷ ms)))
  ]

  -- `login`; a challenge that is sent to the phone is not modelled.
  pub login : Key → Fresh → Key → Key → SessionMeta → Time → Handler Store Failure LoginAnswer
  unfolding check_password
  login challenge fresh email password meta now = do
    u ← check_password email password (λ v. record_event v.id login_failed (some meta))
    throw_if u.suspended suspended_account
    if is_none u.email_verified_at
        then pure (asks_email_verification u.email)
        else second_step challenge fresh u meta now

  -- `validateCredentialsForPasswordGrant`
  pub validate_credentials : Key → Key → Handler Store Failure User
  unfolding check_password
  validate_credentials email password = do
    u ← check_password email password (λ v s. s)
    throw_if u.suspended suspended_account
    throw_if (is_none u.email_verified_at) unverified_email
    elim (enabled_two_factor_methods u) [ [] ↦ pure u | m ∷ ms ↦ throw two_factor_account ]

  -- `requestEmailVerification`
  pub request_email_verification : Key → Key → Time → Handler Store Failure Unit
  unfolding issue_verification_code
  request_email_verification user_id code now = do
    u ← find_by_id user_id
    throw_if (is_some u.email_verified_at) already_verified
    issue_verification_code u.id code now

  -- `requestEmailVerificationByEmail`
  pub request_email_verification_by_email : Key → Key → Time → Handler Store Failure ℕ
  unfolding issue_verification_code
  request_email_verification_by_email email code now s = elim (find (has_email email) s.users) [
    | none ↦ (ok email_verification_ttl_ms, s)
    | some u ↦
        if is_none u.email_verified_at && is_none u.deleted_at
        then (do issue_verification_code u.id code now; pure email_verification_ttl_ms) s
        else (ok email_verification_ttl_ms, s)
  ]

  pub check_verification : Key → Key → Time → Handler Store Failure User
  check_verification email code now = do
    u ← or_throw (← query (λ s. find (has_email email) s.users)) invalid_code
    throw_if (not (is_value (svc.hash_token code) u.email_verification_token_hash)) invalid_code
    throw_if (is_over now u.email_verification_expires_at) invalid_code
    pure u

  abbrev pub raise_to_1 : VerificationLevel → VerificationLevel
  raise_to_1 level_0 = level_1
  raise_to_1 level_1 = level_1
  raise_to_1 level_2 = level_2
  raise_to_1 level_3 = level_3

  abbrev pub verifies : Key → Key → User → Bool
  verifies id hash v = is_user id v && is_value hash v.email_verification_token_hash

  abbrev pub set_verified : VerificationLevel → Time → User → User
  set_verified level now v = record v {
    email_verified_at = some now;
    email_verification_token_hash = none;
    email_verification_expires_at = none;
    verification_level = level;
  }

  -- `confirmEmailVerification`
  pub confirm_email_verification :
      Fresh → Key → Key → SessionMeta → Time → Handler Store Failure IssuedSession
  unfolding check_verification
  confirm_email_verification fresh email code meta now = do
    u ← check_verification email code now
    claimed ← query (λ s. count (verifies u.id (svc.hash_token code)) s.users)
    write (λ s. record s {
      users =
          update (verifies u.id (svc.hash_token code))
            (set_verified (raise_to_1 u.verification_level) now) s.users;
    })
    throw_if (claimed == 0) code_used
    x ← start_session svc.hash_token fresh u.id u.ndy_id meta now
    write (record_login u.id meta false)
    pure x
