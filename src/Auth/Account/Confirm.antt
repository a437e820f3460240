-- ===== src/Auth/Account/Confirm.antt =====
-- A new account, from its registration to its first session.
use ndy_hub.Common.{
  Key, Time, true, false, ◌&&◌, none, some, List, [], ◌∷◌, ◌==◌, ◌!=◌, is_some, Bool-cases,
  Option-cases, ==_iff, ◌+◌, ◌≤◌, ◌≡◌, refl, ◌⊎◌, inl, inr, arith,
}
use ndy_hub.Common.Handler.{ok, err}
use ndy_hub.Common.Table.{find, insert}
use ndy_hub.Common.Table.Laws.{find-update, find-insert}
use ndy_hub.Common.Table.Unique.{found-counted}
use ndy_hub.Auth.Rows.{
  User, Store, SessionMeta, Failure, unique_violation, email_taken, Services, has_email, is_user,
  is_value, is_over,
}
use ndy_hub.Auth.Sessions.{Fresh, issued_for, issue_session}
use ndy_hub.Auth.Account.{
  asks_email_verification, email_verification_ttl_ms, new_user, has_ndy_id, place_user, create_user,
  issue_verification_code, register, check_verification, verifies, confirm_email_verification,
}

-- The NDY ID that is placed is one of those drawn, and one row is added; or all are taken.
place_user-cases :
    (id email hash : Key) (attempts : List Key) (s : Store)
    → ((k : Key) × (place_user id email hash attempts s ≡ (
      ok (new_user id k email hash),
      record s { users = insert (new_user id k email hash) s.users },
    )))
      ⊎ (place_user id email hash attempts s ≡ (err unique_violation, s))
unfolding place_user
place_user-cases id email hash [] s = inr refl
place_user-cases id email hash (k ∷ attempts) s =
    elim (Bool-cases (is_some (find (has_ndy_id k) s.users))) [
      | inr free ↦ inl (k, ground (arith, free))
      | inl taken ↦ elim (place_user-cases id email hash attempts s) [
        | inl (j, placed) ↦ inl (j, ground (arith, taken, placed))
        | inr full ↦ inr (ground (arith, taken, full))
      ]
    ]

create_user-cases :
    (id email hash : Key) (attempts : List Key) (s : Store)
    → ((k : Key) × (find (has_email email) s.users ≡ none)
        × (create_user id email hash attempts s ≡ (
          ok (new_user id k email hash),
          record s { users = insert (new_user id k email hash) s.users },
        )))
      ⊎ ((f : Failure) × (create_user id email hash attempts s ≡ (err f, s)))
unfolding create_user
create_user-cases id email hash attempts s = elim (Option-cases (find (has_email email) s.users)) [
  | inr (u, taken) ↦ inr (email_taken, ground (arith, taken))
  | inl free ↦ elim (place_user-cases id email hash attempts s) [
    | inl (k, placed) ↦ inl (k, free, ground (arith, free, placed))
    | inr full ↦ inr (unique_violation, ground (arith, free, full))
  ]
]

module _ (svc : Services) where
  -- The account with its code, as the registration leaves it.
  abbrev coded : Key → Time → User → User
  coded code now v = record v {
    email_verification_token_hash = some (svc.hash_token code);
    email_verification_expires_at = some (now + email_verification_ttl_ms);
  }

  confirm-found :
      (fresh : Fresh) (email code : Key) (meta : SessionMeta) (now : Time) (t : Store) {u : User}
      → find (has_email email) t.users ≡ some u
      → is_value (svc.hash_token code) u.email_verification_token_hash ≡ true
      → is_over now u.email_verification_expires_at ≡ false
      → (confirm_email_verification svc fresh email code meta now t).0
        ≡ ok (issued_for fresh u.id u.ndy_id)
  unfolding confirm_email_verification check_verification issue_session
  confirm-found fresh email code meta now t {u} found fits in_time =
      let counted =
        found-counted (verifies svc u.id (svc.hash_token code)) (has_email email) t.users found
          (ground (arith, fits, ==_iff u.id u.id)) in
      ground (arith, found, fits, in_time, counted)

  register-cases :
      (dev_email id email password salt : Key) (attempts : List Key) (code : Key) (fresh : Fresh)
      (meta : SessionMeta) (now : Time) (s : Store)
      → (email == dev_email) ≡ false
      → (register svc dev_email id email password salt attempts code fresh meta now s).0
        ≡ ok (asks_email_verification email)
      → (k : Key) × (find
            (has_email email)
            (register svc dev_email id email password salt attempts code fresh meta now s).1.users
          ≡ some (coded code now (new_user id k email (svc.hash_password salt password))))
  unfolding register issue_verification_code
  register-cases dev_email id email password salt attempts code fresh meta now s other e =
      let hash = svc.hash_password salt password in
      elim (create_user-cases id email hash attempts s) [
        | inr (f, failed) ↦ absurd (ground (arith, e, failed))
        | inl (k, free, made) ↦
            let u = new_user id k email hash in
            let t : Store = record s { users = insert u s.users } in
            elim (Bool-cases (
              is_some (
                find
                  (λ v.
                    is_value (svc.hash_token code) v.email_verification_token_hash && v.id != id)
                  t.users))) [
                    | inl dup ↦ absurd (ground (arith, e, made, other, dup))
                    | inr unique ↦ (
                      k,
                      ground (
                        arith,
                        made,
                        other,
                        unique,
                        free,
                        ==_iff email email,
                        ==_iff id id,
                        find-update (has_email email) (is_user id) (coded code now) t.users
                            (λ v. refl),
                        find-insert (has_email email) u s.users,
                      ),
                    )
                  ]
      ]

  -- A registration that asks for the code is completed by that code: given within the time limit, it
  -- signs the new account in.
  pub confirm-register :
      (dev_email id email password salt : Key) (attempts : List Key) (code : Key)
      (fresh fresh' : Fresh) (meta meta' : SessionMeta) (now later : Time) (s : Store)
      → (email == dev_email) ≡ false
      → (register svc dev_email id email password salt attempts code fresh meta now s).0
        ≡ ok (asks_email_verification email)
      → later ≤ now + email_verification_ttl_ms
      → let t = (register svc dev_email id email password salt attempts code fresh meta now s).1 in
        (k : Key) × ((confirm_email_verification svc fresh' email code meta' later t).0
          ≡ ok (issued_for fresh' id k))
  confirm-register dev_email id email password salt attempts code fresh fresh' meta meta' now later
        s other e in_time =
      let t = (register svc dev_email id email password salt attempts code fresh meta now s).1 in
      let (k, found) =
        register-cases dev_email id email password salt attempts code fresh meta now s other e in
      (
        k,
        confirm-found fresh' email code meta' later t found
            ((==_iff (svc.hash_token code) (svc.hash_token code)).1 refl) (ground (arith, in_time)),
      )
