-- ===== src/Auth/Password.antt =====
-- The passwords of AuthService (apps/api/src/auth/auth.service.ts): changed, forgotten and reset.
pub mod Reset
mod Tests
use ndy_hub.Common.{
  ℕ, Key, Time, Bool, not, ◌&&◌, Option, none, some, ◌==◌, ◌!=◌, if◌then◌else◌, is_some, is_none,
  ◌+◌, ◌*◌,
}
use ndy_hub.Common.Handler.{ok, Handler, pure, throw_if, or_throw, query, write, ◌>>=◌, ◌>>◌}
use ndy_hub.Common.Table.{find, update, count}
use mathlib.Core.Option
use ndy_hub.Auth.Rows.{
  User, password_changed, Store, Failure, no_password, wrong_password, invalid_code, code_used,
  unique_violation, Services, is_user, has_email, is_value, is_over, set_user,
}
use ndy_hub.Auth.Sessions.{is_live, revoke_at, record_event}
use ndy_hub.Auth.TwoFactor.{find_by_id}

abbrev pub password_reset_ttl_ms : ℕ
password_reset_ttl_ms = (4 * 60 + 59) * 1000

module _ (svc : Services) where
  -- `issueAndSendPasswordResetCode`, with a unique hash too.
  pub issue_reset_code : Key → Key → Time → Handler Store Failure Unit
  issue_reset_code user_id code now = do
    throw_if
        (← query (λ s. is_some (
          find (λ v. is_value (svc.hash_token code) v.password_reset_token_hash && v.id != user_id)
            s.users)))
        unique_violation
    write (
        set_user user_id (λ v. record v {
          password_reset_token_hash = some (svc.hash_token code);
          password_reset_expires_at = some (now + password_reset_ttl_ms);
        }))

  -- `changePassword`
  pub change_password : Key → Key → Key → Key → Handler Store Failure Unit
  change_password user_id current new_password salt = do
    u ← find_by_id user_id
    hash ← or_throw u.password_hash no_password
    throw_if (not (svc.compare current hash)) wrong_password
    write (
        set_user user_id
          (λ v. record v { password_hash = some (svc.hash_password salt new_password) }))
    write (record_event user_id password_changed none)

  -- `forgotPassword`, which answers alike for every address
  pub forgot_password : Key → Key → Time → Handler Store Failure ℕ
  unfolding issue_reset_code
  forgot_password email code now s = elim (find (has_email email) s.users) [
    | none ↦ (ok password_reset_ttl_ms, s)
    | some u ↦
        if is_some u.password_hash && is_none u.deleted_at
        then (do issue_reset_code u.id code now; pure password_reset_ttl_ms) s
        else (ok password_reset_ttl_ms, s)
  ]

  -- The account with this address, where the code is its own and in time.
  pub check_reset : Key → Key → Time → Handler Store Failure User
  check_reset email code now = do
    u ← or_throw (← query (λ s. find (has_email email) s.users)) invalid_code
    throw_if (not (is_value (svc.hash_token code) u.password_reset_token_hash)) invalid_code
    throw_if (is_over now u.password_reset_expires_at) invalid_code
    pure u

  abbrev pub resets : Key → Key → User → Bool
  resets id hash v = is_user id v && is_value hash v.password_reset_token_hash

  abbrev pub set_password : Key → User → User
  set_password hash v = record v {
    password_hash = some hash;
    password_reset_token_hash = none;
    password_reset_expires_at = none;
  }

  -- `resetPassword`
  pub reset_password : Key → Key → Key → Key → Time → Handler Store Failure Unit
  unfolding check_reset
  reset_password email code new_password salt now = do
    u ← check_reset email code now
    claimed ← query (λ s. count (resets u.id (svc.hash_token code)) s.users)
    write (λ s. record s {
      users =
          update (resets u.id (svc.hash_token code))
            (set_password (svc.hash_password salt new_password)) s.users;
    })
    throw_if (claimed == 0) code_used
    write (λ s. record s {
      sessions = update (λ x. x.user_id == u.id && is_live x) (revoke_at now) s.sessions;
    })
    write (record_event u.id password_changed none)
