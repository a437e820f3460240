-- ===== src/Oauth/RefreshToken.antt =====
-- Refresh tokens of OAuthTokenService (apps/api/src/oauth/oauth-token.service.ts): the row that
-- `issueTokenSet` creates and `rotateRefreshToken`. `hash_token` (SHA-256) is an argument, the
-- drawn token, the row's id, the family id and the resolved device are arguments of `issue`. The JWTs that `issueTokenSet`
-- signs beside the row are made by libraries and change no state.
pub mod Rotation
pub mod Races
mod Tests
use ndy_hub.Common.{
  ℕ, Key, Time, Bool, Option, none, some, List, [], ◌∷◌, ltb, is_some, is_none, ◌==◌, ◌!=◌, ◌+◌,
  ◌*◌, ◌&&◌, ◌||◌, ◌≡◌, if◌then◌else◌,
}
use ndy_hub.Common.Handler.{
  Result, ok, err, Handler, pure, throw, throw_if, or_throw, query, write, ◌>>=◌, ◌>>◌,
}
use ndy_hub.Common.Table.{find, update, count, insert}

pub record RefreshToken : Type 0 where
  pub id : Key
  pub token_hash : Key
  pub user_id : Key
  pub client_id : Key
  pub scope : Key
  pub family_id : Key
  pub device_id : Option Key
  pub expires_at : Time
  pub revoked_at : Option Time

-- The alarms that reuse raises: the security event, and the notification with its `sourceEventId`
-- built from the family.
pub record Alarm : Type 0 where
  pub user_id : Key
  pub family_id : Key

pub record Store : Type 0 where
  pub tokens : List RefreshToken
  pub security_events : List Key
  pub notified : List Alarm

-- The service gives one answer to every token that it refuses.
pub data Failure : Type 0 where
  invalid_token unique_violation : Failure

abbrev pub refresh_token_ttl_ms : ℕ
refresh_token_ttl_ms = 2_592_000_000

pub record IssueParams : Type 0 where
  pub user_id : Key
  pub client_db_id : Key
  pub scope : Key
  pub family_id : Option Key
  pub device_id : Option Key

pub record Grant : Type 0 where
  pub user_id : Key
  pub scope : Key
  pub family_id : Key

abbrev pub has_hash : Key → RefreshToken → Bool
has_hash h r = r.token_hash == h

-- `where: { familyId, revokedAt: null }`
abbrev pub is_live_in : Key → RefreshToken → Bool
is_live_in family r = r.family_id == family && is_none r.revoked_at

abbrev pub revoke_at : Time → RefreshToken → RefreshToken
revoke_at now r = record r { revoked_at = some now }

abbrev pub family_of : Option Key → Key → Key
family_of none random_uuid = random_uuid
family_of (some family) random_uuid = family

abbrev pub has_id : Key → RefreshToken → Bool
has_id id r = r.id == id

abbrev pub new_token : Key → Key → Key → IssueParams → Time → RefreshToken
new_token id token_hash random_uuid p now = record {
  id = id;
  token_hash = token_hash;
  user_id = p.user_id;
  client_id = p.client_db_id;
  scope = p.scope;
  family_id = family_of p.family_id random_uuid;
  device_id = p.device_id;
  expires_at = now + refresh_token_ttl_ms;
  revoked_at = none;
}

abbrev pub grant_of : RefreshToken → Grant
grant_of r = record { user_id = r.user_id; scope = r.scope; family_id = r.family_id }

abbrev pub on_tokens : (List RefreshToken → List RefreshToken) → Store → Store
on_tokens f s = record s { tokens = f s.tokens }

-- Reuse: every live token of the family is revoked, and both alarms are raised.
abbrev pub kill_family : RefreshToken → Time → Store → Store
kill_family r now s = record {
  tokens = update (is_live_in r.family_id) (revoke_at now) s.tokens;
  security_events = r.user_id ∷ s.security_events;
  notified = record { user_id = r.user_id; family_id = r.family_id } ∷ s.notified;
}

module _ (hash_token : Key → Key) where
  -- The row that `issueTokenSet` stores for the refresh token that it returns.
  pub issue : Key → Key → Key → IssueParams → Time → Handler Store Failure Key
  issue id token random_uuid params now = do
    throw_if (← query (λ s. is_some (find (has_hash (hash_token token)) s.tokens))) unique_violation
    write (on_tokens (insert (new_token id (hash_token token) random_uuid params now)))
    pure token

  -- The read and the guards of `rotateRefreshToken`, with the answer to reuse.
  pub check : Key → Key → Time → Handler Store Failure RefreshToken
  check token client_db_id now = do
    r ← or_throw (← query (λ s. find (has_hash (hash_token token)) s.tokens)) invalid_token
    throw_if (r.client_id != client_db_id) invalid_token
    if is_some r.revoked_at then (do write (kill_family r now); throw invalid_token) else pure tt
    throw_if (ltb r.expires_at now) invalid_token
    pure r

  -- The `update` that consumes the token.
  pub consume : RefreshToken → Time → Handler Store Failure Unit
  consume r now = write (on_tokens (update (has_id r.id) (revoke_at now)))

  pub rotate : Key → Key → Time → Handler Store Failure Grant
  unfolding check consume
  rotate token client_db_id now = do
    r ← check token client_db_id now
    consume r now
    pure (grant_of r)
