-- ===== src/Auth/LoginRequest/Exchange.antt =====
-- When an approved login request is exchanged for a session.
use ndy_hub.Common.{Key, Time, true, none, some, ==_iff, ◌≡◌, refl, arith}
use ndy_hub.Common.Handler.{ok}
use ndy_hub.Common.Table.{find, update}
use ndy_hub.Common.Table.Laws.{find_holds, find-update}
use ndy_hub.Common.Table.Unique.{found-counted}
use ndy_hub.Auth.Rows.{User, SessionMeta, is_user}
use ndy_hub.Auth.Sessions.{Fresh, issued_for, issue_session}
use ndy_hub.Auth.LoginRequest.{
  Request, Store, approved, has_token, is_exchangeable, mark_issued, find_active_or_expire,
  check_exchange, claim_exchange, exchange,
}
use ndy_hub.Auth.Revocation.{set_suspended}

-- The request is approved by the user, no session has been issued for it, and the user is there.
pub record Ready (token : Key) (s : Store) (r : Request) (u : User) : Type 0 where
  pub found : find (has_token token) s.requests ≡ some r
  pub status : r.status ≡ approved
  pub by : r.user_id ≡ some u.id
  pub unspent : r.session_issued_at ≡ none
  pub user : find (is_user u.id) s.accounts.users ≡ some u

check_exchange-Ready :
    (token : Key) (now : Time) (s : Store) (r : Request) (u : User)
    → Ready token s r u
    → check_exchange token now s.requests ≡ (ok u.id, s.requests)
unfolding check_exchange find_active_or_expire
check_exchange-Ready token now s r u h = ground (arith, h.found, h.status, h.by, h.unspent)

claim_exchange-Ready :
    (token : Key) (now : Time) (s : Store) (r : Request) (u : User)
    → Ready token s r u
    → claim_exchange token now s.requests
      ≡ (ok tt, update (is_exchangeable token) (mark_issued now) s.requests)
unfolding claim_exchange
claim_exchange-Ready token now s r u h =
    let counted =
      found-counted (is_exchangeable token) (has_token token) s.requests h.found
        (ground (arith, find_holds (has_token token) s.requests h.found, h.status, h.unspent)) in
    ground (arith, counted)

-- An approved request is exchanged at any time, however late, and whatever the state of the account.
pub exchange-Ready :
    (hash_token : Key → Key) (fresh : Fresh) (token : Key) (meta : SessionMeta) (now : Time)
    (s : Store) (r : Request) (u : User)
    → Ready token s r u
    → (exchange hash_token fresh token meta now s).0 ≡ ok (issued_for fresh u.id u.ndy_id)
unfolding exchange issue_session
exchange-Ready hash_token fresh token meta now s r u h =
    ground (
      arith,
      check_exchange-Ready token now s r u h,
      claim_exchange-Ready token now s r u h,
      h.user,
    )

-- Suspending an account, which revokes its sessions, leaves it an approved login request: exchanged
-- at any later time, the request gives the suspended account a new session.
pub exchange-set_suspended :
    (hash_token : Key → Key) (fresh : Fresh) (token : Key) (meta : SessionMeta) (now later : Time)
    (s : Store) (r : Request) (u : User)
    → Ready token s r u
    → let t = record s { accounts = (set_suspended u.id true now s.accounts).1 } in
      (exchange hash_token fresh token meta later t).0 ≡ ok (issued_for fresh u.id u.ndy_id)
unfolding set_suspended
exchange-set_suspended hash_token fresh token meta now later s r u h =
    exchange-Ready hash_token fresh token meta later
      (record s { accounts = (set_suspended u.id true now s.accounts).1 }) r
      (record u { suspended = true })
      (record {
        found = h.found;
        status = h.status;
        by = h.by;
        unspent = h.unspent;
        user = ground (
          arith,
          h.user,
          ==_iff u.id u.id,
          find-update (is_user u.id) (is_user u.id) (λ v. record v { suspended = true })
              s.accounts.users (λ v. refl),
        );
      })
