-- ===== src/Auth/TwoFactor/Tests.antt =====
-- The theorems on two-factor logins at concrete inputs.
use ndy_hub.Common.{false, none, some, [], ◌∷◌, ◌+◌, ◌≡◌, refl, arith}
use ndy_hub.Common.Handler.{err}
use ndy_hub.Common.Table.{find, update, count, insert}
use ndy_hub.Auth.Rows.{User, Store, login_expired, is_over}
use ndy_hub.Auth.Sessions.{issued_for, issue_session, resolve_device}
use ndy_hub.Auth.TwoFactor.{
  has_challenge, challenge_ttl_ms, hash_backup_code, verify_challenge, find_challenge, match_code,
  verify_code_or_backup_code, spend_backup_code, claim_challenge,
}
use ndy_hub.Auth.Examples.{services, no_meta, fresh_ids, member}
use ndy_hub.Auth.TwoFactor.Challenge.{Proves, verify_challenge-Proves}
use ndy_hub.Auth.TwoFactor.Once.{verify_challenge_twice}

-- The account with the authenticator on, one backup code, and a challenge that was issued.
abbrev challenged : User
challenged = record member {
  totp_secret_encrypted = some (services.encrypt 40);
  totp_enabled_at = some 6;
  challenge_token_hash = some (services.hash_token 30);
  challenge_expires_at = some (1000 + challenge_ttl_ms);
}

abbrev waiting : Store
waiting = record {
  users = challenged ∷ [];
  sessions = [];
  devices = [];
  backup_codes =
      record { user_id = 1; code_hash = hash_backup_code services 900; used_at = none } ∷ [];
  security_events = [];
}

verify_challenge-Proves_example :
    (u : User) × (find (has_challenge (services.hash_token 30)) waiting.users ≡ some u)
    × (is_over 2000 u.challenge_expires_at ≡ false)
    × Proves services u 900 2000 waiting
    × (issued_for fresh_ids 1 10 ≡ issued_for fresh_ids u.id u.ndy_id)
unfolding verify_challenge find_challenge match_code verify_code_or_backup_code spend_backup_code
    claim_challenge issue_session resolve_device find update count insert
verify_challenge-Proves_example =
    verify_challenge-Proves services fresh_ids 30 900 no_meta 2000 waiting
      (issued_for fresh_ids 1 10) refl

verify_challenge_twice_example :
    let t = (verify_challenge services fresh_ids 30 40 no_meta 2000 waiting).1 in
    verify_challenge services fresh_ids 30 900 no_meta 3000 t ≡ (err login_expired, t)
unfolding verify_challenge find_challenge match_code verify_code_or_backup_code spend_backup_code
    claim_challenge issue_session resolve_device find update count insert
verify_challenge_twice_example =
    verify_challenge_twice services fresh_ids fresh_ids 30 40 900 no_meta no_meta 2000 3000 waiting
      (issued_for fresh_ids 1 10) (omega arith) refl
