-- ===== src/Auth/TwoFactor/Challenge.antt =====
-- What completes a login with a second factor, and that a challenge completes one login.
use ndy_hub.Common.{
  Key, Time, true, false, ◌&&◌, some, ◌==◌, if◌then◌else◌, is_some, Bool-cases, Option-cases, ◌≤◌,
  ◌≡◌, ◌⊎◌, inl, inr, arith,
}
use ndy_hub.Common.Handler.{ok, err, Handler, write, ◌>>◌}
use ndy_hub.Common.Table.{find, count}
use ndy_hub.Auth.Rows.{
  User, Store, SessionMeta, IssuedSession, Failure, recovery_code_used, login_expired,
  login_completed, Services, is_user, is_over,
}
use ndy_hub.Auth.Sessions.{Fresh, issued_for, issue_session, record_event}
use ndy_hub.Auth.TwoFactor.{
  Matched, is_backup, has_challenge, is_unused_code, hash_backup_code, verify_totp_code,
  spend_backup_code, verify_code_or_backup_code, find_challenge, match_sms, match_code,
  claim_challenge, sign_in, verify_challenge,
}

module _ (svc : Services) where
  -- The code is one of the account's factors: the authenticator's, an unused backup code of an
  -- account with the authenticator on, or the one texted to the account's phone.
  pub data Proves (u : User) (code : Key) (now : Time) (s : Store) : Type 0 where
    authenticator :
        (secret : Key)
        → u.totp_secret_encrypted ≡ some secret
        → is_some u.totp_enabled_at ≡ true
        → verify_totp_code svc secret code now ≡ true
        → Proves u code now s
    backup :
        is_some u.totp_enabled_at ≡ true
        → 1 ≤ count (is_unused_code u.id (hash_backup_code svc code)) s.backup_codes
        → Proves u code now s
    texted :
        (phone : Key)
        → u.sms_phone ≡ some phone
        → is_some u.sms_enabled_at ≡ true
        → svc.sms_valid phone code ≡ true
        → Proves u code now s

  match_sms-Proves :
      (u : User) (code : Key) (now : Time) (s : Store) (m : Matched)
      → match_sms svc u code ≡ some m
      → Proves u code now s
  match_sms-Proves u code now s m e = elim (Option-cases u.sms_phone) [
    | inl unset ↦ absurd (ground (arith, e, unset))
    | inr (phone, number) ↦
        elim (Bool-cases (is_some u.sms_enabled_at && svc.sms_valid phone code)) [
          | inr no_match ↦ absurd (ground (arith, e, number, no_match))
          | inl both ↦ texted phone number (ground (arith, both)) (ground (arith, both))
        ]
  ]

  match_code-Proves :
      (u : User) (code : Key) (now : Time) (s : Store) (m : Matched)
      → (match_code svc u code now s).0 ≡ some m
      → Proves u code now s
  unfolding match_code verify_code_or_backup_code spend_backup_code
  match_code-Proves u code now s m e = elim (Option-cases u.totp_secret_encrypted) [
    | inl unset ↦ match_sms-Proves u code now s m (ground (arith, e, unset))
    | inr (secret, kept) ↦ elim (Bool-cases (is_some u.totp_enabled_at)) [
      | inr off ↦ match_sms-Proves u code now s m (ground (arith, e, kept, off))
      | inl on ↦ elim (Bool-cases (verify_totp_code svc secret code now)) [
        | inl fits ↦ authenticator secret kept on fits
        | inr wrong ↦
            elim (Bool-cases
              (count (is_unused_code u.id (hash_backup_code svc code)) s.backup_codes == 0)) [
                | inl used ↦
                    match_sms-Proves u code now s m (ground (arith, e, kept, on, wrong, used))
                | inr unused ↦ backup on (ground (arith, unused))
              ]
      ]
    ]
  ]

  pub match_code-users :
      (u : User) (code : Key) (now : Time) (s : Store)
      → (match_code svc u code now s).1.users ≡ s.users
  unfolding match_code verify_code_or_backup_code spend_backup_code
  match_code-users u code now s = elim (Option-cases u.totp_secret_encrypted) [
    | inl unset ↦ ground (arith, unset)
    | inr (secret, kept) ↦ elim (Bool-cases (is_some u.totp_enabled_at)) [
      | inr off ↦ ground (arith, kept, off)
      | inl on ↦ elim (Bool-cases (verify_totp_code svc secret code now)) [
        | inl fits ↦ ground (arith, kept, on, fits)
        | inr wrong ↦ ground (arith, kept, on, wrong)
      ]
    ]
  ]

  pub find_challenge-cases :
      (token : Key) (now : Time) (s : Store)
      → ((u : User) × (find (has_challenge (svc.hash_token token)) s.users ≡ some u)
          × (is_over now u.challenge_expires_at ≡ false)
          × (find_challenge svc token now s ≡ (ok u, s)))
        ⊎ (find_challenge svc token now s ≡ (err login_expired, s))
  unfolding find_challenge
  find_challenge-cases token now s =
      elim (Option-cases (find (has_challenge (svc.hash_token token)) s.users)) [
        | inl missing ↦ inr (ground (arith, missing))
        | inr (u, found) ↦ elim (Bool-cases (is_over now u.challenge_expires_at)) [
          | inl late ↦ inr (ground (arith, found, late))
          | inr in_time ↦ inl (u, found, in_time, ground (arith, found, in_time))
        ]
      ]

  -- The rest of a redemption, from the matched code on.
  abbrev pub complete :
      Fresh → User → Key → Matched → SessionMeta → Time → Handler Store Failure IssuedSession
  complete fresh u token m meta now = do
    claim_challenge svc u token
    write (λ s. if is_backup m then record_event u.id recovery_code_used (some meta) s else s)
    sign_in svc fresh u meta now

  pub claim_challenge-cases :
      (u : User) (token : Key) (s : Store)
      → ((claim_challenge svc u token s).0 ≡ ok tt)
        ⊎ ((claim_challenge svc u token s).0 ≡ err login_completed)
  unfolding claim_challenge
  claim_challenge-cases u token s =
      elim (Bool-cases
        (count (λ v. is_user u.id v && has_challenge (svc.hash_token token) v) s.users == 0)) [
          | inl none_left ↦ inr (ground (arith, none_left))
          | inr some_left ↦ inl (ground (arith, some_left))
        ]

  complete-issued :
      (fresh : Fresh) (u : User) (token : Key) (m : Matched) (meta : SessionMeta) (now : Time)
      (s : Store) (x : IssuedSession)
      → (complete fresh u token m meta now s).0 ≡ ok x
      → x ≡ issued_for fresh u.id u.ndy_id
  unfolding issue_session
  complete-issued fresh u token m meta now s x e = elim (claim_challenge-cases u token s) [
    | inl done ↦ ground (arith, e, done)
    | inr failed ↦ absurd (ground (arith, e, failed))
  ]

  pub verify_challenge-complete :
      (fresh : Fresh) (token code : Key) (meta : SessionMeta) (now : Time) (s : Store) (u : User)
      (m : Matched)
      → find_challenge svc token now s ≡ (ok u, s)
      → (match_code svc u code now s).0 ≡ some m
      → verify_challenge svc fresh token code meta now s
        ≡ complete fresh u token m meta now (match_code svc u code now s).1
  unfolding verify_challenge
  verify_challenge-complete fresh token code meta now s u m read matched =
      ground (arith, read, matched)

  -- A login that is completed has the challenge of an account, in time, and a code that is one of
  -- its factors; the session is that account's.
  pub verify_challenge-Proves :
      (fresh : Fresh) (token code : Key) (meta : SessionMeta) (now : Time) (s : Store)
      (x : IssuedSession)
      → (verify_challenge svc fresh token code meta now s).0 ≡ ok x
      → (u : User) × (find (has_challenge (svc.hash_token token)) s.users ≡ some u)
        × (is_over now u.challenge_expires_at ≡ false)
        × Proves u code now s
        × (x ≡ issued_for fresh u.id u.ndy_id)
  unfolding verify_challenge
  verify_challenge-Proves fresh token code meta now s x e =
      elim (find_challenge-cases token now s) [
        | inr failed ↦ absurd (ground (arith, e, failed))
        | inl (u, found, in_time, read) ↦ elim (Option-cases (match_code svc u code now s).0) [
          | inl wrong ↦ absurd (ground (arith, e, read, wrong))
          | inr (m, matched) ↦ (
            u,
            found,
            in_time,
            match_code-Proves u code now s m matched,
            complete-issued fresh u token m meta now (match_code svc u code now s).1 x (
                ground (
                  arith,
                  e,
                  verify_challenge-complete fresh token code meta now s u m read matched,
                )),
          )
        ]
      ]
