-- ===== src/Auth/Revocation.antt =====
-- Signing out: the revocations of DeviceService (apps/api/src/auth/device.service.ts),
-- SecurityService (apps/api/src/security/security.service.ts), and `setSuspended` of AdminService
-- (apps/api/src/admin/admin.service.ts) without its audit log.
pub mod Everywhere
mod Tests
use ndy_hub.Common.{
  ℕ, Key, Time, Bool, true, false, ◌&&◌, ◌||◌, Option, none, some, List, [], ◌∷◌, ◌==◌,
  if◌then◌else◌, is_none,
}
use ndy_hub.Common.Handler.{Handler, pure, throw_if, or_throw, query, write, ◌>>=◌, ◌>>◌}
use ndy_hub.Common.Table.{find, update, count, select}
use mathlib.Core.Option
use ndy_hub.Oauth.RefreshToken
use ndy_hub.Auth.Rows.{
  User, Session, Device, device_revoked, Failure, no_such_user, no_such_device, no_such_session,
  is_user, set_user,
}
use ndy_hub.Auth.Rows
use ndy_hub.Auth.Sessions.{is_live, revoke_at, record_event}

pub record Store : Type 0 where
  pub accounts : Rows.Store
  pub tokens : List RefreshToken.RefreshToken

-- `where: { id, userId, revokedAt: null }`
abbrev pub is_active : Key → Device → Bool
is_active user_id d = d.user_id == user_id && is_none d.revoked_at

abbrev pub revoke_device_at : Time → Device → Device
revoke_device_at now d = record d { revoked_at = some now }

abbrev pub revoke_token_at : Time → RefreshToken.RefreshToken → RefreshToken.RefreshToken
revoke_token_at now r = record r { revoked_at = some now }

abbrev pub on_accounts : (Rows.Store → Rows.Store) → Store → Store
on_accounts f s = record s { accounts = f s.accounts }

-- `deviceId: { in: deviceIds }`
abbrev pub is_member : Key → List Key → Bool
is_member k [] = false
is_member k (i ∷ ids) = i == k || is_member k ids

abbrev pub is_in : List Key → Option Key → Bool
is_in ids none = false
is_in ids (some k) = is_member k ids

-- The transaction of a revocation: devices, and the sessions and tokens tagged with them.
abbrev pub revoke_devices : List Key → Time → Store → Store
revoke_devices ids now s = record {
  accounts = record s.accounts {
    devices = update (λ d. is_member d.id ids) (revoke_device_at now) s.accounts.devices;
    sessions = update (λ x. is_in ids x.device_id && is_live x) (revoke_at now) s.accounts.sessions;
  };
  tokens =
      update (λ r. is_in ids r.device_id && is_none r.revoked_at) (revoke_token_at now) s.tokens;
}

-- `listForUser`
abbrev pub active_devices : Key → Store → List Device
active_devices user_id s = select (is_active user_id) s.accounts.devices

abbrev pub ids_of : List Device → List Key
ids_of [] = []
ids_of (d ∷ ds) = d.id ∷ ids_of ds

-- `revokeDevice`
pub revoke_device : Key → Key → Time → Handler Store Failure Unit
revoke_device user_id id now = do
  d ←
      or_throw (← query (λ s. find (λ d. d.id == id && is_active user_id d) s.accounts.devices))
        no_such_device
  write (revoke_devices (d.id ∷ []) now)
  write (on_accounts (record_event user_id device_revoked none))

-- `revokeAllDevices`, with the number of devices revoked.
pub revoke_all_devices : Key → Time → Store → ℕ × Store
revoke_all_devices user_id now s = elim (active_devices user_id s) [
  | [] ↦ (0, s)
  | d ∷ ds ↦ (
    count (λ e. true) (d ∷ ds),
    on_accounts (record_event user_id device_revoked none) (revoke_devices (ids_of (d ∷ ds)) now s),
  )
]

-- `revokeSession` of SecurityService
pub revoke_session : Key → Key → Time → Handler Store Failure Unit
revoke_session user_id id now = do
  claimed ←
      query
        (λ s. count (λ x. x.id == id && (x.user_id == user_id && is_live x)) s.accounts.sessions)
  write (
      on_accounts (λ a. record a {
        sessions =
            update (λ x. x.id == id && (x.user_id == user_id && is_live x)) (revoke_at now)
              a.sessions;
      }))
  throw_if (claimed == 0) no_such_session

abbrev pub is_session_of : Key → Session → Bool
is_session_of user_id x = x.user_id == user_id && is_live x

-- The `updateMany` on all sessions of a user.
abbrev pub revoke_sessions : Key → Time → Rows.Store → Rows.Store
revoke_sessions user_id now a = record a {
  sessions = update (is_session_of user_id) (revoke_at now) a.sessions;
}

-- `revokeAllSessions`
pub revoke_all_sessions : Key → Time → Store → ℕ × Store
unfolding revoke_all_devices
revoke_all_sessions user_id now s = (
  count (is_session_of user_id) s.accounts.sessions,
  (revoke_all_devices user_id now (on_accounts (revoke_sessions user_id now) s)).1,
)

-- `setSuspended`
unfoldable pub set_suspended : Key → Bool → Time → Handler Rows.Store Failure User
set_suspended user_id suspended now = do
  u ← or_throw (← query (λ s. find (is_user user_id) s.users)) no_such_user
  write (set_user user_id (λ v. record v { suspended = suspended }))
  write (λ s. if suspended then revoke_sessions user_id now s else s)
  pure (record u { suspended = suspended })
