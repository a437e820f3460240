-- ===== src/Auth/Password/Tests.antt =====
-- The theorems on passwords at concrete inputs.
use ndy_hub.Common.{none, some, [], ◌∷◌, ◌+◌, ◌≡◌, refl}
use ndy_hub.Common.Handler.{ok, err}
use ndy_hub.Common.Table.{find, update, count, insert}
use ndy_hub.Auth.Rows.{User, Session, Store, invalid_refresh_token}
use ndy_hub.Auth.Sessions.{issued_for, new_session, rotate_session}
use ndy_hub.Auth.Account.{signed_in, login}
use ndy_hub.Auth.Password.{password_reset_ttl_ms, reset_password, check_reset}
use ndy_hub.Auth.Examples.{services, no_meta, fresh_ids, member}
use ndy_hub.Auth.Password.Reset.{login-reset_password, reset_signs_out}

abbrev empty : Store
empty = record { users = []; sessions = []; devices = []; backup_codes = []; security_events = [] }

-- The account after it asked for a reset code, with a session that it left open.
abbrev resetting : User
resetting = record member {
  password_reset_token_hash = some (services.hash_token 654321);
  password_reset_expires_at = some (1000 + password_reset_ttl_ms);
}

abbrev old_session : Session
old_session =
    new_session services.hash_token
      (record { session_id = 400; device_row_id = 401; refresh_token = 402 }) 1 no_meta none 100

abbrev forgotten : Store
forgotten = record empty { users = resetting ∷ []; sessions = old_session ∷ [] }

login-reset_password_example :
    let t = (reset_password services 20 654321 88 4 2000 forgotten).1 in
    (login services 30 fresh_ids 20 88 no_meta 3000 t).0
    ≡ ok (signed_in (issued_for fresh_ids 1 10))
unfolding reset_password check_reset find update count insert
login-reset_password_example =
    login-reset_password services 30 fresh_ids 20 654321 88 4 no_meta 2000 3000 forgotten resetting
      refl refl refl refl refl refl refl

reset_signs_out_example :
    let t = (reset_password services 20 654321 88 4 2000 forgotten).1 in
    rotate_session services.hash_token fresh_ids 402 no_meta 3000 t ≡ (err invalid_refresh_token, t)
unfolding reset_password check_reset find update count insert
reset_signs_out_example =
    reset_signs_out services 20 654321 88 4 402 fresh_ids no_meta 2000 3000 forgotten resetting
      old_session refl refl refl refl
