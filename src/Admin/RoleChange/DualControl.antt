-- ===== src/Admin/RoleChange/DualControl.antt =====
-- No one decides on a request of one's own, and roles change by approval alone.
use ndy_hub.Common.{
  Key, Time, true, false, Option, some, List, [], ◌∷◌, ◌==◌, Bool-cases, Option-cases, ==_iff, ◌≡◌,
  refl, sym, ap, ◌≢◌, ◌⊎◌, inl, inr, arith,
}
use ndy_hub.Common.Handler.{ok, err}
use ndy_hub.Common.Table.{find, update, insert}
use ndy_hub.Common.Table.Laws.{find_holds, find-update, find-insert}
use ndy_hub.Access.{Role}
use mathlib.Core.Path.{subst}
use ndy_hub.Admin.RoleChange.{
  Status, pending, approved, rejected, Request, Store, Actor, Failure, founder_only,
  no_such_request, already_resolved, self_review, is_user, is_request, is_pending, lacks_authority,
  new_request, create, reviewable, resolve, approve, reject,
}

-- What has been decided was decided by somebody else than who asked for it.
abbrev pub IsTwoPerson : Request → Type 0
IsTwoPerson r =
    (r.status ≡ pending)
    ⊎ ((reviewer : Key) × (r.reviewed_by_user_id ≡ some reviewer)
        × (reviewer ≢ r.requested_by_user_id))

-- The request that the actor may decide on.
pub record MayDecide (s : Store) (actor : Actor) (id : Key) (r : Request) : Type 0 where
  pub found : find (is_request id) s.requests ≡ some r
  pub unresolved : r.status ≡ pending
  pub other : actor.id ≢ r.requested_by_user_id
  pub entitled : lacks_authority actor r.requested_role s ≡ false

pub is_pending-inv : (k : Status) → is_pending k ≡ true → k ≡ pending
is_pending-inv pending e = refl
is_pending-inv approved e = cc
is_pending-inv rejected e = cc

pub reviewable-cases :
    (s : Store) (actor : Actor) (id : Key)
    → ((e : Failure) × (reviewable actor id s ≡ (err e, s)))
      ⊎ ((r : Request) × MayDecide s actor id r × (reviewable actor id s ≡ (ok r, s)))
unfolding reviewable
reviewable-cases s actor id = elim (Option-cases (find (is_request id) s.requests)) [
  | inl missing ↦ inl (no_such_request, ground (arith, missing))
  | inr (r, found) ↦ elim (Bool-cases (is_pending r.status)) [
    | inr done ↦ inl (already_resolved, ground (arith, found, done))
    | inl unresolved ↦ elim (Bool-cases (actor.id == r.requested_by_user_id)) [
      | inl same ↦ inl (self_review, ground (arith, found, unresolved, same))
      | inr other ↦ elim (Bool-cases (lacks_authority actor r.requested_role s)) [
        | inl lacking ↦ inl (founder_only, ground (arith, found, unresolved, other, lacking))
        | inr entitled ↦ inr (
          r,
          record {
            found = found;
            unresolved = is_pending-inv r.status unresolved;
            other = ground (arith, ==_iff actor.id r.requested_by_user_id);
            entitled = entitled;
          },
          ground (arith, found, unresolved, other, entitled),
        )
      ]
    ]
  ]
]

pub create-requests :
    (s : Store) (id : Key) (actor : Actor) (target : Key) (role : Role) (reason : Option Key)
    → ((create id actor target role reason s).1.requests ≡ s.requests)
      ⊎ ((r : Request) × (r.status ≡ pending)
          × ((create id actor target role reason s).1.requests ≡ insert r s.requests))
unfolding create
create-requests s id actor target role reason = elim (Bool-cases (lacks_authority actor role s)) [
  | inl lacking ↦ inl (ground (arith, lacking))
  | inr fine ↦ elim (Option-cases (find (is_user target) s.users)) [
    | inl missing ↦ inl (ground (arith, fine, missing))
    | inr (u, found) ↦ inr (new_request id actor u role reason, refl, ground (arith, fine, found))
  ]
]

pub approve-requests :
    (s : Store) (actor : Actor) (id : Key) (reason : Option Key) (now : Time)
    → ((approve actor id reason now s).1 ≡ s)
      ⊎ ((r : Request) × MayDecide s actor id r
          × ((approve actor id reason now s).1.requests
              ≡ update (is_request r.id) (resolve approved actor reason now) s.requests))
unfolding approve
approve-requests s actor id reason now = elim (reviewable-cases s actor id) [
  | inl (e, eq) ↦ inl (ground (arith, eq))
  | inr (r, may, eq) ↦ elim (Option-cases (find (is_user r.target_user_id) s.users)) [
    | inl missing ↦ inl (ground (arith, eq, missing))
    | inr (u, found) ↦ inr (r, may, ground (arith, eq, found))
  ]
]

pub reject-requests :
    (s : Store) (actor : Actor) (id : Key) (reason : Option Key) (now : Time)
    → ((reject actor id reason now s).1 ≡ s)
      ⊎ ((r : Request) × MayDecide s actor id r
          × ((reject actor id reason now s).1.requests
              ≡ update (is_request r.id) (resolve rejected actor reason now) s.requests))
unfolding reject
reject-requests s actor id reason now = elim (reviewable-cases s actor id) [
  | inl (e, eq) ↦ inl (ground (arith, eq))
  | inr (r, may, eq) ↦ inr (r, may, ground (arith, eq))
]

-- Every request that the table shows under an id.
abbrev pub AllRequests : Store → Type 0
AllRequests s = (id : Key) (r : Request) → find (is_request id) s.requests ≡ some r → IsTwoPerson r

insert-AllRequests :
    (rows : List Request) (new : Request) (id : Key) (r : Request)
    → new.status ≡ pending
    → find (is_request id) (insert new rows) ≡ some r
    → (find (is_request id) rows ≡ some r) ⊎ (r.status ≡ pending)
insert-AllRequests rows new id r p e = elim (Option-cases (find (is_request id) rows)) [
  | inl missing ↦ inr (ground (arith, find-insert (is_request id) new rows, missing, p, e))
  | inr (x, found) ↦ inl (ground (arith, find-insert (is_request id) new rows, found, e))
]

-- A request under an id after a decision is the one from before, or the one decided on.
resolve-find :
    (rows : List Request) (k : Status) (actor : Actor) (reason : Option Key) (now : Time)
    → (decided : Key) (id : Key) (r : Request)
    → find (is_request id) (update (is_request decided) (resolve k actor reason now) rows) ≡ some r
    → (find (is_request id) rows ≡ some r)
      ⊎ ((old : Request) × (find (is_request decided) rows ≡ some old)
          × (r ≡ resolve k actor reason now old))
resolve-find rows k actor reason now decided id r e =
    elim (Option-cases (find (is_request id) rows)) [
      | inl missing ↦ inl (
          ground (
            arith,
            find-update (is_request id) (is_request decided) (resolve k actor reason now) rows
                (λ x. refl),
            missing,
            e,
          ))
      | inr (x, found) ↦ elim (Bool-cases (x.id == decided)) [
        | inl same ↦ inr (
          x,
          subst (λ j. find (is_request j) rows ≡ some x)
              (ground
                (arith, ==_iff x.id id, ==_iff x.id decided, find_holds (is_request id) rows found))
              found,
          ground (
            arith,
            find-update (is_request id) (is_request decided) (resolve k actor reason now) rows
                (λ y. refl),
            found,
            same,
            e,
          ),
        )
        | inr other ↦ inl (
            ground (
              arith,
              find-update (is_request id) (is_request decided) (resolve k actor reason now) rows
                  (λ x. refl),
              found,
              other,
              e,
            ))
      ]
    ]

resolve-AllRequests :
    (s : Store) (k : Status) (actor : Actor) (reason : Option Key) (now : Time) (id : Key)
    (decided : Request)
    → MayDecide s actor id decided
    → AllRequests s
    → (j : Key) (r : Request)
    → find (is_request j) (update (is_request decided.id) (resolve k actor reason now) s.requests)
      ≡ some r
    → IsTwoPerson r
resolve-AllRequests s k actor reason now id decided may h j r e =
    elim (resolve-find s.requests k actor reason now decided.id j r e) [
      | inl before ↦ h j r before
      | inr (old, found, eq) ↦ subst IsTwoPerson (sym eq) (
          inr (
            actor.id,
            refl,
            ground (
              arith,
              may.other,
              may.found,
              found,
              ==_iff decided.id id,
              find_holds (is_request id) s.requests may.found,
              ap is_request,
            ),
          ))
    ]

-- A request of the admin API.
pub data Call : Type 0 where
  creates : Key → Actor → Key → Role → Option Key → Call
  approves : Actor → Key → Option Key → Time → Call
  rejects : Actor → Key → Option Key → Time → Call

abbrev pub run : Call → Store → Store
run (creates id actor target role reason) s = (create id actor target role reason s).1
run (approves actor id reason now) s = (approve actor id reason now s).1
run (rejects actor id reason now) s = (reject actor id reason now s).1

abbrev pub run_all : List Call → Store → Store
run_all [] s = s
run_all (call ∷ calls) s = run_all calls (run call s)

run-AllRequests : (call : Call) (s : Store) → AllRequests s → AllRequests (run call s)
run-AllRequests (creates id actor target role reason) s h j r e =
    elim (create-requests s id actor target role reason) [
      | inl same ↦ h j r (rw same at e)
      | inr (new, p, eq) ↦ elim (insert-AllRequests s.requests new j r p (rw eq at e)) [
        | inl before ↦ h j r before
        | inr fresh ↦ inl fresh
      ]
    ]
run-AllRequests (approves actor id reason now) s h j r e =
    elim (approve-requests s actor id reason now) [
      | inl same ↦ h j r (rw same at e)
      | inr (decided, may, eq) ↦
          resolve-AllRequests s approved actor reason now id decided may h j r (rw eq at e)
    ]
run-AllRequests (rejects actor id reason now) s h j r e =
    elim (reject-requests s actor id reason now) [
      | inl same ↦ h j r (rw same at e)
      | inr (decided, may, eq) ↦
          resolve-AllRequests s rejected actor reason now id decided may h j r (rw eq at e)
    ]

-- After any sequence of requests to the admin API, every role change that is approved or rejected
-- was decided by another person than the one who asked for it, if this was so at the start.
pub two_persons : (calls : List Call) (s : Store) → AllRequests s → AllRequests (run_all calls s)
two_persons [] s h = h
two_persons (call ∷ calls) s h = two_persons calls (run call s) (run-AllRequests call s h)
