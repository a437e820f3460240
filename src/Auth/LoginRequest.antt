-- ===== src/Auth/LoginRequest.antt =====
-- The QR and deep-link login of AuthService (apps/api/src/auth/auth.service.ts): a browser asks, the
-- app approves or denies, and the browser exchanges the approval for a session.
pub mod Promise
pub mod Refinement
pub mod OneSession
pub mod Exchange
mod Tests
use ndy_hub.Common.{
  ℕ, Key, Time, Bool, true, false, not, ◌&&◌, Option, none, some, List, ltb, ◌==◌, if◌then◌else◌,
  is_some, is_none, ◌+◌,
}
use ndy_hub.Common.Handler.{Handler, pure, throw_if, or_throw, query, write, ◌>>=◌, ◌>>◌}
use ndy_hub.Common.Table.{find, update, count, insert}
use mathlib.Core.Option
use ndy_hub.Auth.Rows
use ndy_hub.Auth.Rows.{SessionMeta, IssuedSession, is_user}
use ndy_hub.Auth.Sessions.{Fresh, start_session}

-- `LoginRequestStatus`
pub data Status : Type 0 where
  pending approved denied expired : Status

-- `LoginRequest`, without what the browser says of itself.
pub record Request : Type 0 where
  pub token : Key
  pub status : Status
  pub user_id : Option Key
  pub expires_at : Time
  pub approved_at : Option Time
  pub denied_at : Option Time
  pub session_issued_at : Option Time

pub record Store : Type 0 where
  pub requests : List Request
  pub accounts : Rows.Store

-- `not_pending` names the status in the text of the exception.
pub data Failure : Type 0 where
  unique_violation unknown_request already_handled not_approved already_exchanged no_such_user :
      Failure
  not_pending : Status → Failure

abbrev pub login_request_ttl_ms : ℕ
login_request_ttl_ms = 90_000

abbrev pub is_pending : Status → Bool
is_pending pending = true
is_pending _ = false

abbrev pub is_approved : Status → Bool
is_approved approved = true
is_approved _ = false

abbrev pub has_token : Key → Request → Bool
has_token token r = r.token == token

-- `where: { token, status: PENDING }`
abbrev pub is_open : Key → Request → Bool
is_open token r = r.token == token && is_pending r.status

-- `where: { token, status: APPROVED, sessionIssuedAt: null }`
abbrev pub is_exchangeable : Key → Request → Bool
is_exchangeable token r = r.token == token && (is_approved r.status && is_none r.session_issued_at)

abbrev pub new_request : Key → Time → Request
new_request token now = record {
  token = token;
  status = pending;
  user_id = none;
  expires_at = now + login_request_ttl_ms;
  approved_at = none;
  denied_at = none;
  session_issued_at = none;
}

abbrev pub expire : Request → Request
expire r = record r { status = expired }

abbrev pub grant : Key → Time → Request → Request
grant user_id now r = record r { status = approved; approved_at = some now; user_id = some user_id }

abbrev pub refuse : Time → Request → Request
refuse now r = record r { status = denied; denied_at = some now }

abbrev pub mark_issued : Time → Request → Request
mark_issued now r = record r { session_issued_at = some now }

-- `createLoginRequest`; the token is unique in the table.
pub create : Key → Time → Handler (List Request) Failure Request
create token now = do
  throw_if (← query (λ rows. is_some (find (has_token token) rows))) unique_violation
  write (insert (new_request token now))
  pure (new_request token now)

abbrev pub is_due : Time → Request → Bool
is_due now r = is_pending r.status && ltb r.expires_at now

-- `findActiveOrExpire`
pub find_active_or_expire : Key → Time → Handler (List Request) Failure Request
find_active_or_expire token now = do
  r ← or_throw (← query (find (has_token token))) unknown_request
  if is_due now r then (do write (update (has_token token) expire); pure (expire r)) else pure r

-- The `updateMany` of an approval with its count, one statement of the database.
pub claim_approval : Key → Key → Time → Handler (List Request) Failure Unit
claim_approval token user_id now = do
  claimed ← query (count (is_open token))
  write (update (is_open token) (grant user_id now))
  throw_if (claimed == 0) already_handled

abbrev pub write_denial : Key → Time → List Request → List Request
write_denial token now = update (is_open token) (refuse now)

-- The `updateMany` of an exchange with its count.
pub claim_exchange : Key → Time → Handler (List Request) Failure Unit
claim_exchange token now = do
  claimed ← query (count (is_exchangeable token))
  write (update (is_exchangeable token) (mark_issued now))
  throw_if (claimed == 0) already_exchanged

-- The read of an exchange with its guards, which returns the user who approved.
pub check_exchange : Key → Time → Handler (List Request) Failure Key
unfolding find_active_or_expire
check_exchange token now = do
  r ← find_active_or_expire token now
  throw_if (not (is_approved r.status)) not_approved
  user_id ← or_throw r.user_id not_approved
  throw_if (is_some r.session_issued_at) already_exchanged
  pure user_id

-- A handler of the table of requests inside the whole store.
abbrev pub on_requests : {A : Type 0} → Handler (List Request) Failure A → Handler Store Failure A
on_requests h s = let (r, rows) = h s.requests in (r, record s { requests = rows })

abbrev pub connect : Key → Store → Store
connect user_id s = record s {
  accounts = record s.accounts {
    users = update (is_user user_id) (λ u. record u { ndyapps_connected = true }) s.accounts.users;
  };
}

-- `approveLoginRequest`
pub approve : Key → Key → Time → Handler Store Failure Request
unfolding find_active_or_expire claim_approval
approve token user_id now = do
  r ← on_requests (find_active_or_expire token now)
  throw_if (not (is_pending r.status)) (not_pending r.status)
  on_requests (claim_approval token user_id now)
  write (connect user_id)
  or_throw (← query (λ s. find (has_token token) s.requests)) unknown_request

-- `denyLoginRequest`
pub deny : Key → Time → Handler Store Failure Request
unfolding find_active_or_expire
deny token now = do
  r ← on_requests (find_active_or_expire token now)
  throw_if (not (is_pending r.status)) (not_pending r.status)
  write (λ s. record s { requests = write_denial token now s.requests })
  or_throw (← query (λ s. find (has_token token) s.requests)) unknown_request

-- `exchangeLoginRequest`
pub exchange : (Key → Key) → Fresh → Key → SessionMeta → Time → Handler Store Failure IssuedSession
unfolding check_exchange claim_exchange
exchange hash_token fresh token meta now = do
  user_id ← on_requests (check_exchange token now)
  on_requests (claim_exchange token now)
  u ← or_throw (← query (λ s. find (is_user user_id) s.accounts.users)) no_such_user
  λ s.
      let (issued, a) =
        start_session {E = Failure} hash_token fresh u.id u.ndy_id meta now s.accounts in
      (issued, record s { accounts = a })
