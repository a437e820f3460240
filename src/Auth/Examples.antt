-- ===== src/Auth/Examples.antt =====
-- The data of the tests: services, ids and an account.
use ndy_hub.Common.{none, some, ◌==◌, ◌+◌, ◌-◌, ◌*◌, ◌/◌, ◌%◌}
use ndy_hub.Auth.Rows.{User, SessionMeta, Services}
use ndy_hub.Auth.Sessions.{Fresh}
use ndy_hub.Auth.Account.{new_user}

-- Services in which a hash adds 1000 to its input and the authenticator shows the secret plus the
-- minute.
abbrev pub services : Services
services = record {
  hash_token = λ k. k + 1000;
  upper = λ k. k;
  hash_password = λ salt k. salt * 100000 + k;
  compare = λ k h. h % 100000 == k;
  encrypt = λ k. k + 7;
  decrypt = λ k. k - 7;
  totp_valid = λ secret code now. code == secret + now / 60000;
  sms_valid = λ phone code. code == phone + 1;
}

abbrev pub no_meta : SessionMeta
no_meta = record { user_agent = none; ip = none; device_id = none }

abbrev pub fresh_ids : Fresh
fresh_ids = record { session_id = 500; device_row_id = 501; refresh_token = 502 }

-- An account with a password and a confirmed address.
abbrev pub member : User
member = record (new_user 1 10 20 (services.hash_password 3 77)) { email_verified_at = some 5 }
