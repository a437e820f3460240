-- ===== src/Oauth/RefreshToken/Rotation.antt =====
-- Rotation and reuse detection, for requests that come one after another.
use ndy_hub.Common.{Key, Time, some, ◌∷◌, ◌≡◌, inl, inr, Option-cases, arith, refl}
use ndy_hub.Common.Handler.{ok, err}
use ndy_hub.Common.Table.{find, update, count}
use ndy_hub.Common.Table.Laws.{count-update_self, find-update, find-insert}
use ndy_hub.Oauth.RefreshToken.{
  RefreshToken, Store, IssueParams, Grant, invalid_token, has_hash, has_id, is_live_in, revoke_at,
  new_token, grant_of, issue, rotate,
}

-- The row of a token that a rotation has consumed.
record Spent (hash_token : Key → Key) (s : Store) (token client : Key) (g : Grant) : Type 0 where
  row : RefreshToken
  since : Time
  found : find (has_hash (hash_token token)) s.tokens ≡ some row
  revoked : row.revoked_at ≡ some since
  granted : grant_of row ≡ g
  owner : row.client_id ≡ client

-- What reuse does to the store.
record FamilyKilled (s s' : Store) (g : Grant) (now : Time) : Type 0 where
  tokens : s'.tokens ≡ update (is_live_in g.family_id) (revoke_at now) s.tokens
  security_events : s'.security_events ≡ g.user_id ∷ s.security_events
  notified : s'.notified ≡ record { user_id = g.user_id; family_id = g.family_id } ∷ s.notified

-- What `handleRefreshTokenGrant` passes on to `issueTokenSet`.
abbrev pub replacement : Grant → Key → Key → IssueParams
replacement g client device = record {
  user_id = g.user_id;
  client_db_id = client;
  scope = g.scope;
  family_id = some g.family_id;
  device_id = some device;
}

module _ (hash_token : Key → Key) where
  spent :
      (s : Store) (token client : Key) (now : Time) {g : Grant}
      → (rotate hash_token token client now s).0 ≡ ok g
      → Spent hash_token (rotate hash_token token client now s).1 token client g
  unfolding rotate
  spent s token client now e = elim (Option-cases (find (has_hash (hash_token token)) s.tokens)) [
    | inl missing ↦ absurd (ground arith)
    | inr (r, found) ↦ record {
      row = record r { revoked_at = some now };
      since = now;
      found = ground (
        arith,
        find-update (has_hash (hash_token token)) (has_id r.id) (revoke_at now) s.tokens
            (λ x. refl),
      );
      revoked = refl;
      granted = ground arith;
      owner = ground arith;
    }
  ]

  refused :
      (s : Store) (token client client' : Key) (now : Time) (g : Grant)
      → Spent hash_token s token client g
      → (rotate hash_token token client' now s).0 ≡ err invalid_token
  unfolding rotate
  refused s token client client' now g p = ground (arith, p.found, p.revoked)

  killed :
      (s : Store) (token client : Key) (now : Time) (g : Grant)
      → Spent hash_token s token client g
      → FamilyKilled s (rotate hash_token token client now s).1 g now
  unfolding rotate
  killed s token client now g p = ground (arith, p.found, p.revoked, p.granted, p.owner)

  -- A refresh token is exchanged at most once: after a rotation that succeeded, a later rotation of
  -- the same token is refused, whichever client sends it.
  pub rotate_twice :
      (s : Store) (token client client' : Key) (now later : Time) {g : Grant}
      → (rotate hash_token token client now s).0 ≡ ok g
      → (rotate hash_token token client' later (rotate hash_token token client now s).1).0
        ≡ err invalid_token
  rotate_twice s token client client' now later {g} e =
      refused (rotate hash_token token client now s).1 token client client' later g
        (spent s token client now e)

  -- When a token that was already rotated is presented again by its own client, no live token is
  -- left in its family, and the security event and the notification to the user are added to those
  -- that were there.
  pub reuse_kills_family :
      (s : Store) (token client : Key) (now later : Time) {g : Grant}
      → (rotate hash_token token client now s).0 ≡ ok g
      → let s1 = (rotate hash_token token client now s).1 in
        let s2 = (rotate hash_token token client later s1).1 in
        (count (is_live_in g.family_id) s2.tokens ≡ 0)
        × (s2.security_events ≡ g.user_id ∷ s1.security_events)
        × (s2.notified ≡ record { user_id = g.user_id; family_id = g.family_id } ∷ s1.notified)
  reuse_kills_family s token client now later {g} e =
      let s1 = (rotate hash_token token client now s).1 in
      let k = killed s1 token client later g (spent s token client now e) in
      (
        rw k.tokens (
            count-update_self (is_live_in g.family_id) (revoke_at later) s1.tokens
              (λ x h. ground arith)),
        k.security_events,
        k.notified,
      )

  -- A spent token stays spent when another token is issued.
  Spent-issue :
      (s : Store) (token client : Key) (g : Grant) (id fresh random_uuid : Key)
      (params : IssueParams) (now : Time)
      → Spent hash_token s token client g
      → Spent hash_token (issue hash_token id fresh random_uuid params now s).1 token client g
  unfolding issue
  Spent-issue s token client g id fresh random_uuid params now p = record {
    row = p.row;
    since = p.since;
    found = ground (
      arith,
      p.found,
      find-insert (has_hash (hash_token token))
          (new_token id (hash_token fresh) random_uuid params now) s.tokens,
    );
    revoked = p.revoked;
    granted = p.granted;
    owner = p.owner;
  }

  issued :
      (s : Store) (id fresh random_uuid : Key) (params : IssueParams) (now : Time)
      → (issue hash_token id fresh random_uuid params now s).0 ≡ ok fresh
      → find
          (has_hash (hash_token fresh))
          (issue hash_token id fresh random_uuid params now s).1.tokens
        ≡ some (new_token id (hash_token fresh) random_uuid params now)
  unfolding issue
  issued s id fresh random_uuid params now e = ground (
    arith,
    find-insert (has_hash (hash_token fresh))
        (new_token id (hash_token fresh) random_uuid params now) s.tokens,
  )

  refused_killed :
      (s s' : Store) (g : Grant) (now last : Time) (token client : Key) (r : RefreshToken)
      → FamilyKilled s s' g now
      → find (has_hash (hash_token token)) s.tokens ≡ some r
      → r.family_id ≡ g.family_id
      → (rotate hash_token token client last s').0 ≡ err invalid_token
  unfolding rotate
  refused_killed s s' g now last token client r k found same = ground (
    arith,
    k.tokens,
    find-update (has_hash (hash_token token)) (is_live_in g.family_id) (revoke_at now) s.tokens
        (λ x. refl),
  )

  -- Theft is contained. A token was rotated and its replacement issued into the same family. When
  -- the old token is presented again by its client, that is refused, and from then on every
  -- rotation of the replacement is refused too, whichever client sends it.
  pub reuse_revokes_replacement :
      (s : Store) (token client : Key) (now later last : Time) {g : Grant}
      (id fresh random_uuid device : Key) (at : Time) (client' : Key)
      → (rotate hash_token token client now s).0 ≡ ok g
      → (issue hash_token id fresh random_uuid
          (replacement g client device)
          at
          (rotate hash_token token client now s).1).0
        ≡ ok fresh
      → let s2 =
          (issue hash_token id fresh random_uuid
            (replacement g client device)
            at
            (rotate hash_token token client now s).1).1 in
        let (res, s3) = rotate hash_token token client later s2 in
        (res ≡ err invalid_token)
        × ((rotate hash_token fresh client' last s3).0 ≡ err invalid_token)
  reuse_revokes_replacement s token client now later last {g} id fresh random_uuid device at client'
        e f =
      let s1 = (rotate hash_token token client now s).1 in
      let params = replacement g client device in
      let s2 = (issue hash_token id fresh random_uuid params at s1).1 in
      let p =
        Spent-issue s1 token client g id fresh random_uuid params at (spent s token client now e) in
      (
        refused s2 token client client later g p,
        refused_killed s2 _ g later last fresh client' _ (killed s2 token client later g p)
            (issued s1 id fresh random_uuid params at f) refl,
      )
