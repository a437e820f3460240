-- ===== src/Admin/RoleChange/Approval.antt =====
-- What an approval does to the users.
use ndy_hub.Common.{
  Key, Time, true, false, Option, some, List, [], ◌∷◌, ◌==◌, Bool-cases, Option-cases, ==_iff, ◌≡◌,
  refl, sym, ap, ◌≢◌, ◌⊎◌, inl, inr, arith,
}
use ndy_hub.Common.Handler.{ok}
use ndy_hub.Common.Table.{find, update}
use ndy_hub.Common.Table.Laws.{find_holds, find-update, find-update_other}
use ndy_hub.Access.{Role, founder, super_admin, role_eq}
use ndy_hub.Identity.{format_ndy_id, ndy_id_type_for_user}
use mathlib.Core.Path.{subst}
use ndy_hub.Admin.RoleChange.{
  pending, User, Request, Store, Actor, is_user, is_request, is_founder, lacks_authority, create,
  assign, approve, reject,
}
use ndy_hub.Admin.RoleChange.DualControl.{
  reviewable-cases, Call, creates, approves, rejects, run, run_all,
}

-- The actor is a Founder.
abbrev pub IsFounder : Actor → Store → Type 0
IsFounder actor s = (u : User) × (find (is_user actor.id) s.users ≡ some u) × (u.role ≡ founder)

-- Only a Founder decides on the roles Founder and Super Admin.
abbrev pub MayGrant : Actor → Role → Store → Type 0
MayGrant actor founder s = IsFounder actor s
MayGrant actor super_admin s = IsFounder actor s
MayGrant actor _ s = Unit

-- What a successful approval by `actor` has done: the request was unresolved and somebody else's,
-- and its role one that the actor may grant; the user that it names has the requested role and the
-- id of the permanent core under its class, and nothing else of it has changed; all other users are
-- as before.
pub record Promoted (s after : Store) (actor : Actor) (id : Key) : Type 0 where
  pub request : Request
  pub target : User
  pub request_found : find (is_request id) s.requests ≡ some request
  pub unresolved : request.status ≡ pending
  pub other_person : actor.id ≢ request.requested_by_user_id
  pub may : MayGrant actor request.requested_role s
  pub found : find (is_user request.target_user_id) s.users ≡ some target
  pub promoted :
      find (is_user request.target_user_id) after.users
      ≡ some (record target {
        role = request.requested_role;
        ndy_id =
            format_ndy_id target.ndy_core_id
              (ndy_id_type_for_user target.ndy_id_type request.requested_role);
      })
  pub others :
      (other : Key)
      → other ≢ request.target_user_id
      → find (is_user other) after.users ≡ find (is_user other) s.users

role_eq-founder : (r : Role) → role_eq r founder ≡ true → r ≡ founder
role_eq-founder founder e = refl
role_eq-founder _ e = absurd (ground (arith, e))

is_founder-IsFounder :
    (actor : Actor) (s : Store)
    → is_founder (find (is_user actor.id) s.users) ≡ true
    → IsFounder actor s
is_founder-IsFounder actor s e = elim (Option-cases (find (is_user actor.id) s.users)) [
  | inl missing ↦ absurd (ground (arith, e, missing))
  | inr (u, found) ↦ (u, found, role_eq-founder u.role (ground (arith, e, found)))
]

lacks_authority-MayGrant :
    (actor : Actor) (role : Role) (s : Store)
    → lacks_authority actor role s ≡ false
    → MayGrant actor role s
unfolding lacks_authority
lacks_authority-MayGrant actor founder s e = is_founder-IsFounder actor s (ground (arith, e))
lacks_authority-MayGrant actor super_admin s e = is_founder-IsFounder actor s (ground (arith, e))
lacks_authority-MayGrant actor _ s e = tt

-- An approval that succeeds decides on an unresolved request that somebody else made, and for the
-- roles Founder and Super Admin its reviewer is a Founder; the target alone changes, to the
-- requested role and to the id that its permanent core and its class give.
pub approve-Promoted :
    (s : Store) (actor : Actor) (id : Key) (reason : Option Key) (now : Time) (r : Request)
    → (approve actor id reason now s).0 ≡ ok r
    → Promoted s (approve actor id reason now s).1 actor id
unfolding approve
approve-Promoted s actor id reason now r e = elim (reviewable-cases s actor id) [
  | inl (x, eq) ↦ absurd (ground (arith, eq))
  | inr (q, may, eq) ↦ elim (Option-cases (find (is_user q.target_user_id) s.users)) [
    | inl missing ↦ absurd (ground (arith, eq, missing))
    | inr (u, found) ↦ record {
      request = q;
      target = u;
      request_found = may.found;
      unresolved = may.unresolved;
      other_person = may.other;
      may = lacks_authority-MayGrant actor q.requested_role s may.entitled;
      found = found;
      promoted = ground (
        arith,
        eq,
        found,
        find-update (is_user q.target_user_id) (is_user q.target_user_id)
            (assign q.requested_role u) s.users (λ x. refl),
        find_holds (is_user q.target_user_id) s.users found,
      );
      others = λ other differs. ground (
        arith,
        eq,
        found,
        differs,
        find-update_other (is_user other) (is_user q.target_user_id) (assign q.requested_role u)
            s.users (λ x. refl)
            (λ x h. ground (arith, differs, h, ==_iff x.id other, ==_iff x.id q.target_user_id)),
      );
    }
  ]
]

-- Users change by approvals alone: a new request and a rejection leave them as they are.
pub create-users :
    (s : Store) (id : Key) (actor : Actor) (target : Key) (role : Role) (reason : Option Key)
    → (create id actor target role reason s).1.users ≡ s.users
unfolding create
create-users s id actor target role reason = elim (Bool-cases (lacks_authority actor role s)) [
  | inl lacking ↦ ground (arith, lacking)
  | inr fine ↦ elim (Option-cases (find (is_user target) s.users)) [
    | inl missing ↦ ground (arith, fine, missing)
    | inr (u, found) ↦ ground (arith, fine, found)
  ]
]

pub reject-users :
    (s : Store) (actor : Actor) (id : Key) (reason : Option Key) (now : Time)
    → (reject actor id reason now s).1.users ≡ s.users
unfolding reject
reject-users s actor id reason now = elim (reviewable-cases s actor id) [
  | inl (e, eq) ↦ ground (arith, eq)
  | inr (r, may, eq) ↦ ground (arith, eq)
]

-- The id that a user shows is the one that the permanent core and the user's class give.
abbrev pub IsSpelled : User → Type 0
IsSpelled u = u.ndy_id ≡ format_ndy_id u.ndy_core_id (ndy_id_type_for_user u.ndy_id_type u.role)

-- Every user that the table shows under an id.
abbrev pub AllSpelled : Store → Type 0
AllSpelled s = (id : Key) (u : User) → find (is_user id) s.users ≡ some u → IsSpelled u

approve-users :
    (s : Store) (actor : Actor) (id : Key) (reason : Option Key) (now : Time)
    → ((approve actor id reason now s).1.users ≡ s.users)
      ⊎ ((r : Request) × (target : User) × (find (is_user r.target_user_id) s.users ≡ some target)
          × ((approve actor id reason now s).1.users
              ≡ update (is_user r.target_user_id) (assign r.requested_role target) s.users))
unfolding approve
approve-users s actor id reason now = elim (reviewable-cases s actor id) [
  | inl (e, eq) ↦ inl (ground (arith, eq))
  | inr (r, may, eq) ↦ elim (Option-cases (find (is_user r.target_user_id) s.users)) [
    | inl missing ↦ inl (ground (arith, eq, missing))
    | inr (u, found) ↦ inr (r, u, found, ground (arith, eq, found))
  ]
]

assign-AllSpelled :
    (rows : List User) (role : Role) (target_id : Key) (target : User)
    → find (is_user target_id) rows ≡ some target
    → ((id : Key) (u : User) → find (is_user id) rows ≡ some u → IsSpelled u)
    → (id : Key) (u : User)
    → find (is_user id) (update (is_user target_id) (assign role target) rows) ≡ some u
    → IsSpelled u
assign-AllSpelled rows role target_id target found h id u e =
    elim (Option-cases (find (is_user id) rows)) [
      | inl missing ↦ absurd (
          ground (
            arith,
            find-update (is_user id) (is_user target_id) (assign role target) rows (λ x. refl),
            missing,
            e,
          ))
      | inr (x, shown) ↦ elim (Bool-cases (x.id == target_id)) [
        | inr other ↦ h id u (
            ground (
              arith,
              find-update (is_user id) (is_user target_id) (assign role target) rows (λ y. refl),
              shown,
              other,
              e,
            ))
        | inl same ↦
            let same_row : x ≡ target = ground (
              arith,
              shown,
              found,
              ==_iff x.id id,
              ==_iff x.id target_id,
              find_holds (is_user id) rows shown,
              same,
              ap is_user,
            ) in
            let spelled : IsSpelled (assign role target x) =
              ap
                (λ (y : User).
                  format_ndy_id y.ndy_core_id (ndy_id_type_for_user y.ndy_id_type role))
                (sym same_row) in
            subst IsSpelled {x = assign role target x} {y = u}
              (ground (
                arith,
                find-update (is_user id) (is_user target_id) (assign role target) rows (λ y. refl),
                shown,
                same,
                e,
              ))
              spelled
      ]
    ]

run-AllSpelled : (call : Call) (s : Store) → AllSpelled s → AllSpelled (run call s)
run-AllSpelled (creates id actor target role reason) s h j u e =
    h j u (rw (create-users s id actor target role reason) at e)
run-AllSpelled (rejects actor id reason now) s h j u e =
    h j u (rw (reject-users s actor id reason now) at e)
run-AllSpelled (approves actor id reason now) s h j u e =
    elim (approve-users s actor id reason now) [
      | inl same ↦ h j u (rw same at e)
      | inr (r, target, found, eq) ↦
          assign-AllSpelled s.users r.requested_role r.target_user_id target found h j u
            (rw eq at e)
    ]

-- After any sequence of requests to the admin API, the id that a user shows is the one that the
-- permanent core and the class of the user give, if this was so at the start.
pub ids_follow_roles : (calls : List Call) (s : Store) → AllSpelled s → AllSpelled (run_all calls s)
ids_follow_roles [] s h = h
ids_follow_roles (call ∷ calls) s h = ids_follow_roles calls (run call s) (run-AllSpelled call s h)
