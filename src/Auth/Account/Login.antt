-- ===== src/Auth/Account/Login.antt =====
-- Who is signed in by a password.
use ndy_hub.Common.{
  Key, Time, true, false, some, List, [], ◌∷◌, is_some, is_none, Bool-cases, Option-cases, ◌≡◌,
  refl, ◌↔◌, ◌⊎◌, inl, inr, arith,
}
use ndy_hub.Common.Handler.{ok, err}
use ndy_hub.Common.Table.{find}
use mathlib.Core.Path.{subst}
use ndy_hub.Auth.Rows.{
  User, Store, SessionMeta, IssuedSession, login_failed, incorrect_login, Services, has_email,
}
use ndy_hub.Auth.Sessions.{Fresh, record_event, issued_for, issue_session}
use ndy_hub.Auth.TwoFactor.{Method, enabled_two_factor_methods, sign_in}
use ndy_hub.Auth.Account.{signed_in, check_password, login, validate_credentials}

module _ (svc : Services) where
  -- The password is that of the account with this address, which is not suspended, has confirmed
  -- its address and has no second factor.
  pub record MayLogin (email password : Key) (s : Store) (u : User) : Type 0 where
    pub found : find (has_email email) s.users ≡ some u
    pub hash : Key
    pub hashed : u.password_hash ≡ some hash
    pub compared : svc.compare password hash ≡ true
    pub allowed : u.suspended ≡ false
    pub verified : is_none u.email_verified_at ≡ false
    pub no_totp : is_some u.totp_enabled_at ≡ false
    pub no_sms : is_some u.sms_enabled_at ≡ false

  check_password-cases :
      (email password : Key) (on_mismatch : User → Store → Store) (s : Store)
      → ((u : User) × (h : Key) × (find (has_email email) s.users ≡ some u)
          × (u.password_hash ≡ some h)
          × (svc.compare password h ≡ true)
          × (check_password svc email password on_mismatch s ≡ (ok u, s)))
        ⊎ ((check_password svc email password on_mismatch s).0 ≡ err incorrect_login)
  unfolding check_password
  check_password-cases email password on_mismatch s =
      elim (Option-cases (find (has_email email) s.users)) [
        | inl missing ↦ inr (ground (arith, missing))
        | inr (u, found) ↦ elim (Option-cases u.password_hash) [
          | inl unset ↦ inr (ground (arith, found, unset))
          | inr (h, hashed) ↦ elim (Bool-cases (svc.compare password h)) [
            | inr differs ↦ inr (ground (arith, found, hashed, differs))
            | inl fits ↦ inl (u, h, found, hashed, fits, ground (arith, found, hashed, fits))
          ]
        ]
      ]

  methods-none :
      (u : User)
      → (enabled_two_factor_methods u ≡ [])
        ↔ ((is_some u.totp_enabled_at ≡ false) × (is_some u.sms_enabled_at ≡ false))
  methods-none u = (
    λ e. elim (Bool-cases (is_some u.totp_enabled_at)) [
      | inl t ↦ absurd (ground (arith, e, t))
      | inr t ↦ elim (Bool-cases (is_some u.sms_enabled_at)) [
        | inl k ↦ absurd (ground (arith, e, t, k))
        | inr k ↦ (t, k)
      ]
    ],
    λ (t, k). rw (t, k) refl,
  )

  methods-cases :
      (u : User)
      → (enabled_two_factor_methods u ≡ [])
        ⊎ ((m : Method) × (ms : List Method) × (enabled_two_factor_methods u ≡ m ∷ ms))
  methods-cases u =
      elim (enabled_two_factor_methods u)
        as (λ l. (l ≡ []) ⊎ ((m : Method) × (ms : List Method) × (l ≡ m ∷ ms))) [
          | [] ↦ inl refl
          | m ∷ ms ↦ inr (m, ms, refl)
        ]

  login_checked :
      (email password : Key) (on_mismatch : User → Store → Store) (s : Store) (u : User)
      → MayLogin email password s u
      → check_password svc email password on_mismatch s ≡ (ok u, s)
  unfolding check_password
  login_checked email password on_mismatch s u m = ground (arith, m.found, m.hashed, m.compared)

  validate_credentials-MayLogin :
      (email password : Key) (s : Store) (u : User)
      → (validate_credentials svc email password s ≡ (ok u, s)) ↔ MayLogin email password s u
  unfolding validate_credentials
  validate_credentials-MayLogin email password s u = (
    λ e. elim (check_password-cases email password (λ v s. s) s) [
      | inr failed ↦ absurd (ground (arith, e, failed))
      | inl (v, h, found, hashed, fits, checked) ↦ elim (Bool-cases v.suspended) [
        | inl barred ↦ absurd (ground (arith, e, checked, barred))
        | inr allowed ↦ elim (Bool-cases (is_none v.email_verified_at)) [
          | inl unverified ↦ absurd (ground (arith, e, checked, allowed, unverified))
          | inr verified ↦ elim (methods-cases v) [
            | inr (m, ms, more) ↦ absurd (ground (arith, e, checked, allowed, verified, more))
            | inl plain ↦
                let same : v ≡ u = ground (arith, e, checked, allowed, verified, plain) in
                subst (MayLogin email password s) same (record {
                  found = found;
                  hash = h;
                  hashed = hashed;
                  compared = fits;
                  allowed = allowed;
                  verified = verified;
                  no_totp = ((methods-none v).0 plain).0;
                  no_sms = ((methods-none v).0 plain).1;
                })
          ]
        ]
      ]
    ],
    λ m. ground (
      arith,
      login_checked email password (λ v s. s) s u m,
      m.allowed,
      m.verified,
      (methods-none u).1 (m.no_totp, m.no_sms),
    ),
  )

  sign_in-issued :
      (fresh : Fresh) (u : User) (meta : SessionMeta) (now : Time) (s : Store)
      → (sign_in svc fresh u meta now s).0 ≡ ok (issued_for fresh u.id u.ndy_id)
  unfolding issue_session
  sign_in-issued fresh u meta now s = refl

  -- A login answers with a session just where the password may sign in, and the session is that of
  -- the account with this address.
  pub login-MayLogin :
      (challenge : Key) (fresh : Fresh) (email password : Key) (meta : SessionMeta) (now : Time)
      (s : Store) (x : IssuedSession)
      → ((login svc challenge fresh email password meta now s).0 ≡ ok (signed_in x))
        ↔ ((u : User) × MayLogin email password s u × (x ≡ issued_for fresh u.id u.ndy_id))
  unfolding login issue_session
  login-MayLogin challenge fresh email password meta now s x = (
    λ e.
        elim (check_password-cases email password (λ v. record_event v.id login_failed (some meta))
          s) [
            | inr failed ↦ absurd (ground (arith, e, failed))
            | inl (v, h, found, hashed, fits, checked) ↦ elim (Bool-cases v.suspended) [
              | inl barred ↦ absurd (ground (arith, e, checked, barred))
              | inr allowed ↦ elim (Bool-cases (is_none v.email_verified_at)) [
                | inl unverified ↦ absurd (ground (arith, e, checked, allowed, unverified))
                | inr verified ↦ elim (methods-cases v) [
                  | inr (m, ms, more) ↦ absurd (ground (arith, e, checked, allowed, verified, more))
                  | inl plain ↦ (
                    v,
                    record {
                      found = found;
                      hash = h;
                      hashed = hashed;
                      compared = fits;
                      allowed = allowed;
                      verified = verified;
                      no_totp = ((methods-none v).0 plain).0;
                      no_sms = ((methods-none v).0 plain).1;
                    },
                    ground (arith, e, checked, allowed, verified, plain),
                  )
                ]
              ]
            ]
          ],
    λ (u, m, same). ground (
      arith,
      same,
      login_checked email password (λ v. record_event v.id login_failed (some meta)) s u m,
      m.allowed,
      m.verified,
      (methods-none u).1 (m.no_totp, m.no_sms),
    ),
  )
