-- ===== src/Auth/Revocation/Tests.antt =====
-- Signing out everywhere at a concrete input.
use ndy_hub.Common.{true, none, some, [], ◌∷◌, ◌≡◌}
use ndy_hub.Common.Table.{count}
use ndy_hub.Common.Table.Laws.{In}
use ndy_hub.Auth.Rows.{Session, Device}
use ndy_hub.Auth.Revocation.{Store, is_active, is_session_of, revoke_all_sessions}
use ndy_hub.Auth.Revocation.Everywhere.{is_tagged, sign_out_everywhere}
use ndy_hub.Oauth.RefreshToken

abbrev phone : Device
phone = record { id = 50; user_id = 1; device_id = 5; last_seen_at = 10; revoked_at = none }

abbrev session : Session
session = record {
  id = 60;
  user_id = 1;
  refresh_token_hash = 61;
  user_agent = none;
  ip = none;
  device_id = some 50;
  expires_at = 9000;
  revoked_at = none;
}

abbrev token : RefreshToken.RefreshToken
token = record {
  id = 70;
  token_hash = 71;
  user_id = 1;
  client_id = 2;
  scope = 3;
  family_id = 4;
  device_id = some 50;
  expires_at = 9000;
  revoked_at = none;
}

abbrev signed_in : Store
signed_in = record {
  accounts = record {
    users = [];
    sessions = session ∷ [];
    devices = phone ∷ [];
    backup_codes = [];
    security_events = [];
  };
  tokens = token ∷ [];
}

sign_out_everywhere_example :
    let t = (revoke_all_sessions 1 500 signed_in).1 in
    (count (is_session_of 1) t.accounts.sessions ≡ 0)
    × (count (is_active 1) t.accounts.devices ≡ 0)
    × ((d : Device)
        → In d signed_in.accounts.devices
        → is_active 1 d ≡ true
        → count (is_tagged d.id) t.tokens ≡ 0)
sign_out_everywhere_example = sign_out_everywhere 1 500 signed_in
