-- ===== src/Workspace/Invites.antt =====
-- An invite is accepted once, by whom it was sent to.
use ndy_hub.Common.{
  Key, Time, true, false, none, some, ltb, ◌==◌, Bool-cases, Option-cases, ==_iff, ◌≤◌, ◌≡◌, refl,
  sym, ap, ◌∙◌, ◌⊎◌, inl, inr, arith,
}
use ndy_hub.Common.Handler.{Result, ok, err}
use ndy_hub.Common.Table.{find, update, insert}
use ndy_hub.Common.Table.Laws.{find-update}
use mathlib.Core.Path.{subst}
use ndy_hub.Workspace.{
  accepted, User, Invite, Membership, Store, Failure, existing_member, invalid_token,
  already_resolved, invite_expired, no_such_user, other_email, is_pending, is_user, is_invite,
  has_hash, is_membership, resolve, new_membership, accept,
}

module _ (hash_token : Key → Key) where
  -- An invite that the user may accept.
  pub record MayJoin (user_id token : Key) (now : Time) (s : Store) (i : Invite) (user : User)
      : Type 0 where
    pub found : find (has_hash (hash_token token)) s.invites ≡ some i
    pub unresolved : is_pending i.status ≡ true
    pub in_time : now ≤ i.expires_at
    pub known : find (is_user user_id) s.users ≡ some user
    pub invited : user.email ≡ i.invited_email
    pub outside : find (is_membership i.workspace_id user_id) s.memberships ≡ none

  accept-cases :
      (id user_id token : Key) (now : Time) (s : Store)
      → ((e : Failure) × ((accept hash_token id user_id token now s).0 ≡ err e))
        ⊎ ((i : Invite) × (user : User) × MayJoin user_id token now s i user
            × (accept hash_token id user_id token now s ≡ (
              ok (new_membership id user_id i),
              record s {
                invites = update (is_invite i.id) (resolve accepted now) s.invites;
                memberships = insert (new_membership id user_id i) s.memberships;
              },
            )))
  unfolding accept
  accept-cases id user_id token now s =
      elim (Option-cases (find (has_hash (hash_token token)) s.invites)) [
        | inl missing ↦ inl (invalid_token, ground (arith, missing))
        | inr (i, found) ↦ elim (Bool-cases (is_pending i.status)) [
          | inr done ↦ inl (already_resolved, ground (arith, found, done))
          | inl unresolved ↦ elim (Bool-cases (ltb i.expires_at now)) [
            | inl late ↦ inl (invite_expired, ground (arith, found, unresolved, late))
            | inr early ↦ elim (Option-cases (find (is_user user_id) s.users)) [
              | inl unknown ↦ inl (no_such_user, ground (arith, found, unresolved, early, unknown))
              | inr (u, known) ↦ elim (Bool-cases (u.email == i.invited_email)) [
                | inr other ↦
                    inl (other_email, ground (arith, found, unresolved, early, known, other))
                | inl same ↦
                    elim (Option-cases
                      (find (is_membership i.workspace_id user_id) s.memberships)) [
                        | inr (m, there) ↦ inl (
                          existing_member,
                          ground (arith, found, unresolved, early, known, same, there),
                        )
                        | inl outside ↦ inr (
                          i,
                          u,
                          record {
                            found = found;
                            unresolved = unresolved;
                            in_time = ground (arith, early);
                            known = known;
                            invited = ground (arith, same, ==_iff u.email i.invited_email);
                            outside = outside;
                          },
                          ground (arith, found, unresolved, early, known, same, outside),
                        )
                      ]
              ]
            ]
          ]
        ]
      ]

  -- A membership comes from an unresolved invite in time that was sent to the user's own email,
  -- to a workspace that the user was not in; it has the role and the department of the invite,
  -- and nothing but it and the invite's status is written.
  pub accept-MayJoin :
      (id user_id token : Key) (now : Time) (s : Store) (m : Membership)
      → (accept hash_token id user_id token now s).0 ≡ ok m
      → (i : Invite) × (user : User) × MayJoin user_id token now s i user
        × (m ≡ new_membership id user_id i)
        × ((accept hash_token id user_id token now s).1 ≡ record s {
          invites = update (is_invite i.id) (resolve accepted now) s.invites;
          memberships = insert m s.memberships;
        })
  accept-MayJoin id user_id token now s m e = elim (accept-cases id user_id token now s) [
    | inl (x, bad) ↦ absurd (ground (arith, e, bad))
    | inr (i, user, may, eq) ↦
        let same : m ≡ new_membership id user_id i = ground (arith, eq, e) in
        (
          i,
          user,
          may,
          same,
          ap (λ (x : Result Failure Membership × Store). x.1) eq
              ∙ ap
                  (λ k. record s {
                    invites = update (is_invite i.id) (resolve accepted now) s.invites;
                    memberships = insert k s.memberships;
                  })
                  (sym same),
        )
  ]

  accept_resolved :
      (id user_id token : Key) (now : Time) (s : Store) (i : Invite)
      → find (has_hash (hash_token token)) s.invites ≡ some i
      → is_pending i.status ≡ false
      → accept hash_token id user_id token now s ≡ (err already_resolved, s)
  unfolding accept
  accept_resolved id user_id token now s i found done = ground (arith, found, done)

  -- Once an invite has been accepted, accepting it again, by anyone and at any time, fails and
  -- changes nothing.
  pub accept_once :
      (id user_id token : Key) (now : Time) (s : Store) (m : Membership) (id' user_id' : Key)
      (later : Time)
      → (accept hash_token id user_id token now s).0 ≡ ok m
      → let t = (accept hash_token id user_id token now s).1 in
        (accept hash_token id' user_id' token later t ≡ (err already_resolved, t))
  accept_once id user_id token now s m id' user_id' later e =
      elim (accept-cases id user_id token now s) [
        | inl (x, bad) ↦ absurd (ground (arith, e, bad))
        | inr (i, user, may, eq) ↦
            let t = record s {
              invites = update (is_invite i.id) (resolve accepted now) s.invites;
              memberships = insert (new_membership id user_id i) s.memberships;
            } in
            let found' : find (has_hash (hash_token token)) t.invites
                ≡ some (resolve accepted now i) =
              ground (
                arith,
                may.found,
                ==_iff i.id i.id,
                find-update (has_hash (hash_token token)) (is_invite i.id) (resolve accepted now)
                    s.invites (λ x. refl),
              ) in
            subst
              (λ (x : Result Failure Membership × Store).
                accept hash_token id' user_id' token later x.1 ≡ (err already_resolved, x.1))
              (sym eq)
              (accept_resolved id' user_id' token later t (resolve accepted now i) found' refl)
      ]
