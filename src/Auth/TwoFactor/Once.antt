-- ===== src/Auth/TwoFactor/Once.antt =====
-- A challenge completes one login, and a backup code passes once.
use ndy_hub.Common.{
  Key, Time, ◌&&◌, none, some, if◌then◌else◌, Bool-cases, Option-cases, ==_iff, ◌≤◌, ◌≡◌, refl, ◌≢◌,
  inl, inr, arith,
}
use ndy_hub.Common.Handler.{ok, err}
use ndy_hub.Common.Table.{find, update, count}
use ndy_hub.Common.Table.Laws.{find_holds, count-update_self}
use ndy_hub.Auth.Rows.{
  User, Store, SessionMeta, IssuedSession, recovery_code_used, login_expired, Services, is_user,
}
use ndy_hub.Auth.Sessions.{
  Fresh, issue_session, record_event, resolve_device, is_device, is_new_device,
}
use ndy_hub.Auth.TwoFactor.{
  Matched, is_backup, by_totp, by_backup, by_sms, use_code, has_challenge, set_challenge,
  is_unused_code, hash_backup_code, verify_totp_code, spend_backup_code, verify_code_or_backup_code,
  find_challenge, match_code, claim_challenge, sign_in, verify_challenge,
}
use ndy_hub.Common.Table.Unique.{find-update_cleared}
use ndy_hub.Auth.TwoFactor.Challenge.{
  complete, match_code-users, find_challenge-cases, claim_challenge-cases,
  verify_challenge-complete,
}

issue_session-users :
    (hash_token : Key → Key) (fresh : Fresh) (user_id ndy_id : Key) (meta : SessionMeta)
    (now : Time) (s : Store)
    → (issue_session hash_token fresh user_id ndy_id meta now s).1.users ≡ s.users
unfolding issue_session resolve_device
issue_session-users hash_token fresh user_id ndy_id meta now s =
    elim (Option-cases meta.device_id) [
      | inl unnamed ↦ ground (arith, unnamed)
      | inr (d, named) ↦ elim (Option-cases (find (is_device user_id d) s.devices)) [
        | inl new ↦ ground (arith, named, new)
        | inr (r, known) ↦ ground (arith, named, known)
      ]
    ]

module _ (svc : Services) where
  sign_in-users :
      (fresh : Fresh) (u : User) (meta : SessionMeta) (now : Time) (s : Store)
      → (sign_in svc fresh u meta now s).1.users ≡ s.users
  sign_in-users fresh u meta now s = elim (Bool-cases (is_new_device u.id meta s)) [
    | inl new ↦
        ground (arith, new, issue_session-users svc.hash_token fresh u.id u.ndy_id meta now s)
    | inr old ↦
        ground (arith, old, issue_session-users svc.hash_token fresh u.id u.ndy_id meta now s)
  ]

  note_code-users :
      (m : Matched) (id : Key) (meta : SessionMeta) (s : Store)
      → (if is_backup m then record_event id recovery_code_used (some meta) s else s).users
        ≡ s.users
  note_code-users by_totp id meta s = refl
  note_code-users by_backup id meta s = refl
  note_code-users by_sms id meta s = refl

  complete-users :
      (fresh : Fresh) (u : User) (token : Key) (m : Matched) (meta : SessionMeta) (now : Time)
      (s : Store) (x : IssuedSession)
      → (complete svc fresh u token m meta now s).0 ≡ ok x
      → (complete svc fresh u token m meta now s).1.users
        ≡ update
            (λ v. is_user u.id v && has_challenge (svc.hash_token token) v)
            (set_challenge none none)
            s.users
  unfolding claim_challenge
  complete-users fresh u token m meta now s x e = elim (claim_challenge-cases svc u token s) [
    | inr failed ↦ absurd (ground (arith, e, failed))
    | inl done ↦
        let t = (claim_challenge svc u token s).1 in
        let n = if is_backup m then record_event u.id recovery_code_used (some meta) t else t in
        ground (arith, done, sign_in-users fresh u meta now n, note_code-users m u.id meta t)
  ]

  no_challenge :
      (fresh : Fresh) (token code : Key) (meta : SessionMeta) (now : Time) (t : Store)
      → find (has_challenge (svc.hash_token token)) t.users ≡ none
      → verify_challenge svc fresh token code meta now t ≡ (err login_expired, t)
  unfolding verify_challenge find_challenge
  no_challenge fresh token code meta now t gone = ground (arith, gone)

  cleared :
      (fresh : Fresh) (token : Key) (meta : SessionMeta) (now : Time) (s : Store) (u : User)
      (m : Matched) (code : Key) (x : IssuedSession)
      → count (has_challenge (svc.hash_token token)) s.users ≤ 1
      → find (has_challenge (svc.hash_token token)) s.users ≡ some u
      → find_challenge svc token now s ≡ (ok u, s)
      → (match_code svc u code now s).0 ≡ some m
      → (verify_challenge svc fresh token code meta now s).0 ≡ ok x
      → find
          (has_challenge (svc.hash_token token))
          (verify_challenge svc fresh token code meta now s).1.users
        ≡ none
  cleared fresh token meta now s u m code x one found read matched e =
      let t = (match_code svc u code now s).1 in
      let same = verify_challenge-complete svc fresh token code meta now s u m read matched in
      let q = has_challenge (svc.hash_token token) in
      let p = λ (v : User). is_user u.id v && q v in
      rw
        (
          same,
          complete-users fresh u token m meta now t x (rw same at e),
          match_code-users svc u code now s,
        )
        (find-update_cleared p q (set_challenge none none) s.users (λ v h. ground (arith, h))
          (λ v h. refl) one found (ground (arith, ==_iff u.id u.id, find_holds q s.users found)))

  -- A challenge token that has completed a login completes no other: sent again with any code and
  -- at any time it is refused, and nothing changes. The hash is unique among the accounts.
  pub verify_challenge_twice :
      (fresh fresh' : Fresh) (token code code' : Key) (meta meta' : SessionMeta) (now later : Time)
      (s : Store) (x : IssuedSession)
      → count (has_challenge (svc.hash_token token)) s.users ≤ 1
      → (verify_challenge svc fresh token code meta now s).0 ≡ ok x
      → let t = (verify_challenge svc fresh token code meta now s).1 in
        verify_challenge svc fresh' token code' meta' later t ≡ (err login_expired, t)
  unfolding verify_challenge
  verify_challenge_twice fresh fresh' token code code' meta meta' now later s x one e =
      no_challenge fresh' token code' meta' later
        (verify_challenge svc fresh token code meta now s).1
        (elim (find_challenge-cases svc token now s) [
          | inr failed ↦ absurd (ground (arith, e, failed))
          | inl (u, found, in_time, read) ↦ elim (Option-cases (match_code svc u code now s).0) [
            | inl wrong ↦ absurd (ground (arith, e, read, wrong))
            | inr (m, matched) ↦ cleared fresh token meta now s u m code x one found read matched e
          ]
        ])

  -- Once a backup code has passed, it passes no more as a backup code of that account.
  pub verify_code_or_backup_code_twice :
      (user_id secret secret' code : Key) (now later : Time) (s : Store)
      → (verify_code_or_backup_code svc user_id secret code now s).0 ≡ some by_backup
      → (verify_code_or_backup_code svc user_id secret' code later
          (verify_code_or_backup_code svc user_id secret code now s).1).0
        ≢ some by_backup
  unfolding verify_code_or_backup_code spend_backup_code
  verify_code_or_backup_code_twice user_id secret secret' code now later s e e' =
      let q = is_unused_code user_id (hash_backup_code svc code) in
      let spent = count-update_self q (use_code now) s.backup_codes (λ c h. ground arith) in
      elim (Bool-cases (verify_totp_code svc secret code now)) [
        | inl fits ↦ absurd (ground (arith, e, fits))
        | inr wrong ↦ elim (Bool-cases (verify_totp_code svc secret' code later)) [
          | inl fits ↦ absurd (ground (arith, e', wrong, fits))
          | inr wrong' ↦ absurd (ground (arith, e', wrong, wrong', spent))
        ]
      ]
