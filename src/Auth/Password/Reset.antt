-- ===== src/Auth/Password/Reset.antt =====
-- What resetting a password does.
use ndy_hub.Common.{
  Key, Time, true, false, ◌&&◌, some, ◌==◌, if◌then◌else◌, is_some, is_none, Bool-cases,
  Option-cases, ==_iff, ◌≡◌, refl, ◌⊎◌, inl, inr, arith,
}
use ndy_hub.Common.Handler.{ok, err}
use ndy_hub.Common.Table.{find, update, count}
use ndy_hub.Common.Table.Laws.{find-update}
use ndy_hub.Auth.Rows.{
  User, Session, Store, SessionMeta, invalid_code, invalid_refresh_token, Services, has_email,
  is_value, is_over,
}
use ndy_hub.Auth.Sessions.{Fresh, issued_for, has_token, is_live, revoke_at, rotate_session}
use ndy_hub.Auth.Sessions.Rotation.{revoked_refused}
use ndy_hub.Auth.Account.{signed_in, login}
use ndy_hub.Auth.Password.{check_reset, resets, set_password, reset_password}
use ndy_hub.Auth.Account.Login.{login-MayLogin}

module _ (svc : Services) where
  check_reset-cases :
      (email code : Key) (now : Time) (s : Store)
      → ((u : User) × (find (has_email email) s.users ≡ some u)
          × (is_value (svc.hash_token code) u.password_reset_token_hash ≡ true)
          × (is_over now u.password_reset_expires_at ≡ false)
          × (check_reset svc email code now s ≡ (ok u, s)))
        ⊎ (check_reset svc email code now s ≡ (err invalid_code, s))
  unfolding check_reset
  check_reset-cases email code now s = elim (Option-cases (find (has_email email) s.users)) [
    | inl missing ↦ inr (ground (arith, missing))
    | inr (u, found) ↦
        elim (Bool-cases (is_value (svc.hash_token code) u.password_reset_token_hash)) [
          | inr wrong ↦ inr (ground (arith, found, wrong))
          | inl fits ↦ elim (Bool-cases (is_over now u.password_reset_expires_at)) [
            | inl late ↦ inr (ground (arith, found, fits, late))
            | inr in_time ↦ inl (u, found, fits, in_time, ground (arith, found, fits, in_time))
          ]
        ]
  ]

  -- A reset that succeeds had the code of the account with this address, in time; it sets that
  -- account's password and revokes its sessions.
  record Effects (email code new_password salt : Key) (now : Time) (s : Store) (u : User)
      (t : Store) : Type 0 where
    found : find (has_email email) s.users ≡ some u
    fits : is_value (svc.hash_token code) u.password_reset_token_hash ≡ true
    users :
        t.users
        ≡ update
            (resets svc u.id (svc.hash_token code))
            (set_password svc (svc.hash_password salt new_password))
            s.users
    sessions : t.sessions ≡ update (λ x. x.user_id == u.id && is_live x) (revoke_at now) s.sessions

  reset_password-Effects :
      (email code new_password salt : Key) (now : Time) (s : Store)
      → (reset_password svc email code new_password salt now s).0 ≡ ok tt
      → (u : User) × Effects email code new_password salt now s u
          (reset_password svc email code new_password salt now s).1
  unfolding reset_password
  reset_password-Effects email code new_password salt now s e =
      elim (check_reset-cases email code now s) [
        | inr failed ↦ absurd (ground (arith, e, failed))
        | inl (u, found, fits, in_time, read) ↦
            elim (Bool-cases (count (resets svc u.id (svc.hash_token code)) s.users == 0)) [
              | inl gone ↦ absurd (ground (arith, e, read, gone))
              | inr here ↦ (
                u,
                record {
                  found = found;
                  fits = fits;
                  users = ground (arith, read, here);
                  sessions = ground (arith, read, here);
                },
              )
            ]
      ]

  set-found :
      (email code new_password salt : Key) (now : Time) (s t : Store) (u : User)
      → Effects email code new_password salt now s u t
      → find (has_email email) t.users
        ≡ some (set_password svc (svc.hash_password salt new_password) u)
  set-found email code new_password salt now s t u h = ground (
    arith,
    h.users,
    h.found,
    h.fits,
    ==_iff u.id u.id,
    find-update (has_email email) (resets svc u.id (svc.hash_token code))
        (set_password svc (svc.hash_password salt new_password)) s.users (λ v. refl),
  )

  spent_code :
      (email code new_password salt : Key) (now : Time) (t : Store) {u : User}
      → find (has_email email) t.users ≡ some u
      → is_value (svc.hash_token code) u.password_reset_token_hash ≡ false
      → reset_password svc email code new_password salt now t ≡ (err invalid_code, t)
  unfolding reset_password check_reset
  spent_code email code new_password salt now t found spent = ground (arith, found, spent)

  -- After a reset the code is used up: resetting with it again is refused.
  pub reset_password_twice :
      (email code new_password new_password' salt salt' : Key) (now later : Time) (s : Store)
      → (reset_password svc email code new_password salt now s).0 ≡ ok tt
      → let t = (reset_password svc email code new_password salt now s).1 in
        reset_password svc email code new_password' salt' later t ≡ (err invalid_code, t)
  reset_password_twice email code new_password new_password' salt salt' now later s e =
      let (u, h) = reset_password-Effects email code new_password salt now s e in
      spent_code email code new_password' salt' later
        (reset_password svc email code new_password salt now s).1
        (set-found email code new_password salt now s
          (reset_password svc email code new_password salt now s).1 u h)
        refl

  -- After a reset the new password signs in, where the account is not suspended, has confirmed its
  -- address and has no second factor. That bcrypt accepts the password it hashed is a hypothesis.
  pub login-reset_password :
      (challenge : Key) (fresh : Fresh) (email code new_password salt : Key) (meta : SessionMeta)
      (now later : Time) (s : Store) (u : User)
      → svc.compare new_password (svc.hash_password salt new_password) ≡ true
      → find (has_email email) s.users ≡ some u
      → u.suspended ≡ false
      → is_none u.email_verified_at ≡ false
      → is_some u.totp_enabled_at ≡ false
      → is_some u.sms_enabled_at ≡ false
      → (reset_password svc email code new_password salt now s).0 ≡ ok tt
      → let t = (reset_password svc email code new_password salt now s).1 in
        (login svc challenge fresh email new_password meta later t).0
        ≡ ok (signed_in (issued_for fresh u.id u.ndy_id))
  login-reset_password challenge fresh email code new_password salt meta now later s u law found
        allowed verified no_totp no_sms e =
      let t = (reset_password svc email code new_password salt now s).1 in
      let (v, h) = reset_password-Effects email code new_password salt now s e in
      let same : v ≡ u = ground (arith, h.found, found) in
      (login-MayLogin svc challenge fresh email new_password meta later t
          (issued_for fresh u.id u.ndy_id)).1
        (
          set_password svc (svc.hash_password salt new_password) u,
          record {
            found = rw same at (set-found email code new_password salt now s t v h);
            hash = svc.hash_password salt new_password;
            hashed = refl;
            compared = law;
            allowed = allowed;
            verified = verified;
            no_totp = no_totp;
            no_sms = no_sms;
          },
          refl,
        )

  -- After a reset no refresh token that belonged to a session of the account is accepted.
  pub reset_signs_out :
      (email code new_password salt token : Key) (fresh : Fresh) (meta : SessionMeta)
      (now later : Time) (s : Store) (u : User) (x : Session)
      → find (has_email email) s.users ≡ some u
      → find (has_token (svc.hash_token token)) s.sessions ≡ some x
      → x.user_id ≡ u.id
      → (reset_password svc email code new_password salt now s).0 ≡ ok tt
      → let t = (reset_password svc email code new_password salt now s).1 in
        rotate_session svc.hash_token fresh token meta later t ≡ (err invalid_refresh_token, t)
  reset_signs_out email code new_password salt token fresh meta now later s u x found held mine e =
      let t = (reset_password svc email code new_password salt now s).1 in
      let (v, h) = reset_password-Effects email code new_password salt now s e in
      let same : v ≡ u = ground (arith, h.found, found) in
      let revoked =
        λ (y : Session). if y.user_id == v.id && is_live y then revoke_at now y else y in
      let there : find (has_token (svc.hash_token token)) t.sessions ≡ some (revoked x) = ground (
        arith,
        h.sessions,
        held,
        find-update (has_token (svc.hash_token token)) (λ y. y.user_id == v.id && is_live y)
            (revoke_at now) s.sessions (λ y. refl),
      ) in
      revoked_refused svc.hash_token fresh token meta later t there (elim (Bool-cases (is_live x)) [
        | inl live ↦ ground (arith, mine, same, live)
        | inr dead ↦ ground (arith, dead)
      ])
