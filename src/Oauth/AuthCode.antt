-- ===== src/Oauth/AuthCode.antt =====
-- AuthorizationCodeService (apps/api/src/oauth/authorization-code.service.ts). The code that
-- `nanoid` draws is an argument of `issue`; SHA-256 is the argument `sha256` of the PKCE check.
pub mod Redemption
pub mod Races
mod Tests
use ndy_hub.Common.{
  ℕ, Key, Time, Bool, Option, none, some, List, ltb, is_some, is_none, ◌==◌, ◌!=◌, ◌+◌, ◌&&◌,
}
use ndy_hub.Common.Handler.{Handler, pure, throw_if, or_throw, query, write, ◌>>=◌, ◌>>◌}
use ndy_hub.Common.Table.{find, update, count, insert}

pub record AuthCode : Type 0 where
  pub code : Key
  pub user_id : Key
  pub client_id : Key
  pub redirect_uri : Key
  pub scope : Key
  pub code_challenge : Option Key
  pub code_challenge_method : Option Key
  pub expires_at : Time
  pub used_at : Option Time

-- What the service throws; `unique_violation` is the database's own refusal of a second row.
pub data Failure : Type 0 where
  unknown_code expired wrong_client wrong_redirect_uri already_used unique_violation : Failure

abbrev pub auth_code_ttl_ms : ℕ
auth_code_ttl_ms = 60_000

-- The arguments of `issue`.
pub record IssueParams : Type 0 where
  pub user_id : Key
  pub client_id : Key
  pub redirect_uri : Key
  pub scope : Key
  pub code_challenge : Option Key
  pub code_challenge_method : Option Key

abbrev pub has_code : Key → AuthCode → Bool
has_code code r = r.code == code

-- `where: { code, usedAt: null }`
abbrev pub is_unused : Key → AuthCode → Bool
is_unused code r = r.code == code && is_none r.used_at

abbrev pub mark_used : Time → AuthCode → AuthCode
mark_used now r = record r { used_at = some now }

abbrev pub new_code : Key → IssueParams → Time → AuthCode
new_code code p now = record {
  code = code;
  user_id = p.user_id;
  client_id = p.client_id;
  redirect_uri = p.redirect_uri;
  scope = p.scope;
  code_challenge = p.code_challenge;
  code_challenge_method = p.code_challenge_method;
  expires_at = now + auth_code_ttl_ms;
  used_at = none;
}

pub issue : Key → IssueParams → Time → Handler (List AuthCode) Failure Key
issue code params now = do
  throw_if (← query (λ codes. is_some (find (has_code code) codes))) unique_violation
  write (insert (new_code code params now))
  pure code

-- The read of `redeem` and its guards, which change nothing.
pub check : Key → Key → Key → Time → Handler (List AuthCode) Failure AuthCode
check code client_id redirect_uri now = do
  r ← or_throw (← query (find (has_code code))) unknown_code
  throw_if (ltb r.expires_at now) expired
  throw_if (r.client_id != client_id) wrong_client
  throw_if (r.redirect_uri != redirect_uri) wrong_redirect_uri
  pure r

-- The `updateMany` of `redeem` with its count, one statement of the database.
pub claim : Key → Time → Handler (List AuthCode) Failure Unit
claim code now = do
  claimed ← query (count (is_unused code))
  write (update (is_unused code) (mark_used now))
  throw_if (claimed == 0) already_used

pub redeem : Key → Key → Key → Time → Handler (List AuthCode) Failure AuthCode
unfolding check claim
redeem code client_id redirect_uri now = do
  r ← check code client_id redirect_uri now
  claim code now
  pure r

-- `verifyPkceChallenge`
pub verify_pkce_challenge : (Key → Key) → Key → Key → Bool
verify_pkce_challenge sha256 verifier challenge = sha256 verifier == challenge
