-- ===== src/Auth/Sessions.antt =====
-- SessionService, `resolveDevice` of DeviceService and the writes of SecurityEventService
-- (apps/api/src/auth/session.service.ts, device.service.ts, security-event.service.ts). A new device
-- has its alerts off, so no approval is asked for it. A drawn refresh token is taken to be new.
pub mod Rotation
use ndy_hub.Common.{
  ℕ, Key, Time, Bool, false, not, ◌&&◌, ◌||◌, Option, none, some, ltb, ◌==◌, if◌then◌else◌, is_none,
  ◌+◌, ◌*◌,
}
use ndy_hub.Common.Handler.{ok, Handler, pure, throw_if, or_throw, query, write, ◌>>=◌, ◌>>◌}
use ndy_hub.Common.Table.{find, update, count, insert}
use mathlib.Core.Option
use ndy_hub.Auth.Rows.{
  User, Session, Device, EventType, login_success, new_device, Store, SessionMeta, IssuedSession,
  Failure, invalid_refresh_token, is_user, is_value,
}

abbrev pub refresh_token_ttl_ms : ℕ
refresh_token_ttl_ms = 30 * 24 * 60 * 60 * 1000

-- The ids and the token that a new session draws.
pub record Fresh : Type 0 where
  pub session_id : Key
  pub device_row_id : Key
  pub refresh_token : Key

-- The unique pair `userId_deviceId`.
abbrev pub is_device : Key → Key → Device → Bool
is_device user_id device_id d = d.user_id == user_id && d.device_id == device_id

abbrev pub new_device_row : Key → Key → Key → Time → Device
new_device_row id user_id device_id now = record {
  id = id;
  user_id = user_id;
  device_id = device_id;
  last_seen_at = now;
  revoked_at = none;
}

-- `resolveDevice`: a device that comes back is seen again, and active again.
unfoldable pub resolve_device : Key → Key → Option Key → Time → Store → Option Key × Store
resolve_device row_id user_id none now s = (none, s)
resolve_device row_id user_id (some device_id) now s =
    elim (find (is_device user_id device_id) s.devices) [
      | none ↦ (
        some row_id,
        record s { devices = insert (new_device_row row_id user_id device_id now) s.devices },
      )
      | some d ↦ (
        some d.id,
        record s {
          devices =
              update (is_device user_id device_id)
                (λ e. record e { last_seen_at = now; revoked_at = none }) s.devices;
        },
      )
    ]

abbrev pub new_session : (Key → Key) → Fresh → Key → SessionMeta → Option Key → Time → Session
new_session hash_token fresh user_id meta device now = record {
  id = fresh.session_id;
  user_id = user_id;
  refresh_token_hash = hash_token fresh.refresh_token;
  user_agent = meta.user_agent;
  ip = meta.ip;
  device_id = device;
  expires_at = now + refresh_token_ttl_ms;
  revoked_at = none;
}

abbrev pub add_session : Session → Store → Store
add_session x s = record s { sessions = insert x s.sessions }

abbrev pub issued_for : Fresh → Key → Key → IssuedSession
issued_for fresh user_id ndy_id = record {
  sub = user_id;
  ndy_id = ndy_id;
  sid = fresh.session_id;
  refresh_token = fresh.refresh_token;
}

unfoldable pub issue_session :
    (Key → Key) → Fresh → Key → Key → SessionMeta → Time → Store → IssuedSession × Store
unfolding resolve_device
issue_session hash_token fresh user_id ndy_id meta now s =
    let (device, t) = resolve_device fresh.device_row_id user_id meta.device_id now s in
    (
      issued_for fresh user_id ndy_id,
      add_session (new_session hash_token fresh user_id meta device now) t,
    )

-- `issueSession` as a statement of a handler.
abbrev pub start_session :
    {E : Type 0}
    → (Key → Key)
    → Fresh
    → Key
    → Key
    → SessionMeta
    → Time
    → Handler Store E IssuedSession
start_session hash_token fresh user_id ndy_id meta now s =
    let (issued, t) = issue_session hash_token fresh user_id ndy_id meta now s in (ok issued, t)

abbrev pub has_token : Key → Session → Bool
has_token hash x = x.refresh_token_hash == hash

-- `where: { ..., revokedAt: null }`
abbrev pub is_live : Session → Bool
is_live x = is_none x.revoked_at

abbrev pub revoke_at : Time → Session → Session
revoke_at now x = record x { revoked_at = some now }

-- The read of `rotateSession` with its guards. By the table's foreign key a session has its user.
pub check_token : (Key → Key) → Key → Time → Handler Store Failure (Session × User)
check_token hash_token token now = do
  x ← or_throw (← query (λ s. find (has_token (hash_token token)) s.sessions)) invalid_refresh_token
  throw_if (not (is_live x) || ltb x.expires_at now) invalid_refresh_token
  u ← or_throw (← query (λ s. find (is_user x.user_id) s.users)) invalid_refresh_token
  pure (x, u)

abbrev pub revoke_row : Session → Time → Store → Store
revoke_row x now s = record s { sessions = update (λ y. y.id == x.id) (revoke_at now) s.sessions }

pub rotate_session :
    (Key → Key) → Fresh → Key → SessionMeta → Time → Handler Store Failure IssuedSession
unfolding check_token issue_session
rotate_session hash_token fresh token meta now = do
  (x, u) ← check_token hash_token token now
  write (revoke_row x now)
  start_session hash_token fresh x.user_id u.ndy_id meta now

-- `revokeSession`
abbrev pub revoke_session : (Key → Key) → Key → Time → Store → Store
revoke_session hash_token token now s = record s {
  sessions = update (λ x. has_token (hash_token token) x && is_live x) (revoke_at now) s.sessions;
}

-- `record`; that it never throws is its `catch`.
abbrev pub record_event : Key → EventType → Option SessionMeta → Store → Store
record_event user_id type meta s = record s {
  security_events =
      insert
        (record {
          user_id = user_id;
          type = type;
          ip = elim meta [ none ↦ none | some m ↦ m.ip ];
          user_agent = elim meta [ none ↦ none | some m ↦ m.user_agent ];
        })
        s.security_events;
}

-- `recordLogin`
abbrev pub record_login : Key → SessionMeta → Bool → Store → Store
record_login user_id meta is_new s =
    record_event user_id login_success (some meta)
      (if is_new then record_event user_id new_device (some meta) s else s)

-- `isNewDevice`
abbrev pub is_new_device : Key → SessionMeta → Store → Bool
is_new_device user_id meta s = elim meta.user_agent [
  | none ↦ false
  | some agent ↦ count (λ x. x.user_id == user_id && is_value agent x.user_agent) s.sessions == 0
]
