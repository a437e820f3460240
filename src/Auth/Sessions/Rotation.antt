-- ===== src/Auth/Sessions/Rotation.antt =====
-- A refresh token is accepted once.
use ndy_hub.Common.{
  Key, Time, true, false, ◌&&◌, none, some, ltb, ◌==◌, Bool-cases, Option-cases, ==_iff, ◌≡◌, refl,
  ◌⊎◌, inl, inr, arith,
}
use ndy_hub.Common.Handler.{ok, err}
use ndy_hub.Common.Table.{find, update, insert}
use ndy_hub.Common.Table.Laws.{find_holds, find-update, find-insert}
use ndy_hub.Auth.Rows.{
  User, Session, Store, SessionMeta, IssuedSession, invalid_refresh_token, is_user,
}
use ndy_hub.Auth.Sessions.{
  Fresh, has_token, is_live, revoke_at, check_token, revoke_row, revoke_session, rotate_session,
  issue_session, resolve_device, new_session, is_device,
}

module _ (hash_token : Key → Key) where
  -- The token of a session that was revoked is refused.
  pub revoked_refused :
      (fresh : Fresh) (token : Key) (meta : SessionMeta) (now : Time) (s : Store) {x : Session}
      → find (has_token (hash_token token)) s.sessions ≡ some x
      → is_live x ≡ false
      → rotate_session hash_token fresh token meta now s ≡ (err invalid_refresh_token, s)
  unfolding rotate_session check_token
  revoked_refused fresh token meta now s found revoked = ground (arith, found, revoked)

  unknown_refused :
      (fresh : Fresh) (token : Key) (meta : SessionMeta) (now : Time) (s : Store)
      → find (has_token (hash_token token)) s.sessions ≡ none
      → rotate_session hash_token fresh token meta now s ≡ (err invalid_refresh_token, s)
  unfolding rotate_session check_token
  unknown_refused fresh token meta now s missing = ground (arith, missing)

  issue_session-sessions :
      (fresh : Fresh) (user_id ndy_id : Key) (meta : SessionMeta) (now : Time) (s : Store)
      → (x : Session) × ((issue_session hash_token fresh user_id ndy_id meta now s).1.sessions
          ≡ insert x s.sessions)
  unfolding issue_session resolve_device
  issue_session-sessions fresh user_id ndy_id meta now s = elim (Option-cases meta.device_id) [
    | inl unnamed ↦ (new_session hash_token fresh user_id meta none now, ground (arith, unnamed))
    | inr (d, named) ↦ elim (Option-cases (find (is_device user_id d) s.devices)) [
      | inl new ↦ (
        new_session hash_token fresh user_id meta (some fresh.device_row_id) now,
        ground (arith, named, new),
      )
      | inr (r, known) ↦
          (new_session hash_token fresh user_id meta (some r.id) now, ground (arith, named, known))
    ]
  ]

  check_token-cases :
      (token : Key) (now : Time) (s : Store)
      → ((x : Session) × (u : User) × (find (has_token (hash_token token)) s.sessions ≡ some x)
          × (is_live x ≡ true)
          × (ltb x.expires_at now ≡ false)
          × (find (is_user x.user_id) s.users ≡ some u)
          × (check_token hash_token token now s ≡ (ok (x, u), s)))
        ⊎ (check_token hash_token token now s ≡ (err invalid_refresh_token, s))
  unfolding check_token
  check_token-cases token now s =
      elim (Option-cases (find (has_token (hash_token token)) s.sessions)) [
        | inl missing ↦ inr (ground (arith, missing))
        | inr (x, found) ↦ elim (Bool-cases (is_live x)) [
          | inr revoked ↦ inr (ground (arith, found, revoked))
          | inl live ↦ elim (Bool-cases (ltb x.expires_at now)) [
            | inl late ↦ inr (ground (arith, found, live, late))
            | inr in_time ↦ elim (Option-cases (find (is_user x.user_id) s.users)) [
              | inl orphan ↦ inr (ground (arith, found, live, in_time, orphan))
              | inr (u, owner) ↦
                  inl
                    (x, u, found, live, in_time, owner, ground (arith, found, live, in_time, owner))
            ]
          ]
        ]
      ]

  -- A refresh token that was exchanged for a new pair is refused from then on, with no change.
  pub rotate_session_twice :
      (fresh fresh' : Fresh) (token : Key) (meta meta' : SessionMeta) (now later : Time) (s : Store)
      (i : IssuedSession)
      → (rotate_session hash_token fresh token meta now s).0 ≡ ok i
      → let t = (rotate_session hash_token fresh token meta now s).1 in
        rotate_session hash_token fresh' token meta' later t ≡ (err invalid_refresh_token, t)
  unfolding rotate_session
  rotate_session_twice fresh fresh' token meta meta' now later s i e =
      elim (check_token-cases token now s) [
        | inr failed ↦ absurd (ground (arith, e, failed))
        | inl (x, u, found, live, in_time, owner, read) ↦
            let (y, added) =
              issue_session-sessions fresh x.user_id u.ndy_id meta now (revoke_row x now s) in
            revoked_refused fresh' token meta' later
              (rotate_session hash_token fresh token meta now s).1 {x = revoke_at now x}
              (ground (
                arith,
                read,
                added,
                found,
                ==_iff x.id x.id,
                find-insert (has_token (hash_token token)) y
                    (update (λ z. z.id == x.id) (revoke_at now) s.sessions),
                find-update (has_token (hash_token token)) (λ z. z.id == x.id) (revoke_at now)
                    s.sessions (λ z. refl),
              ))
              refl
      ]

  -- A refresh token whose session was signed out is refused, with no change.
  pub rotate_session-revoke_session :
      (fresh : Fresh) (token : Key) (meta : SessionMeta) (now later : Time) (s : Store)
      → let t = revoke_session hash_token token now s in
        rotate_session hash_token fresh token meta later t ≡ (err invalid_refresh_token, t)
  rotate_session-revoke_session fresh token meta now later s =
      let t = revoke_session hash_token token now s in
      let q = has_token (hash_token token) in
      let p = λ (y : Session). q y && is_live y in
      elim (Option-cases (find q s.sessions)) [
        | inl missing ↦
            unknown_refused fresh token meta later t
              (ground (arith, missing, find-update q p (revoke_at now) s.sessions (λ y. refl)))
        | inr (x, found) ↦ elim (Bool-cases (is_live x)) [
          | inl live ↦
              revoked_refused fresh token meta later t {x = revoke_at now x}
                (ground (
                  arith,
                  found,
                  live,
                  find_holds q s.sessions found,
                  find-update q p (revoke_at now) s.sessions (λ y. refl),
                ))
                refl
          | inr revoked ↦
              revoked_refused fresh token meta later t {x = x}
                (ground
                  (arith, found, revoked, find-update q p (revoke_at now) s.sessions (λ y. refl)))
                revoked
        ]
      ]
