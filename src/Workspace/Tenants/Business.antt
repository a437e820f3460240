-- ===== src/Workspace/Tenants/Business.antt =====
-- What approving a business workspace does, and that a request is decided once.
use ndy_hub.Common.{
  Key, Time, true, false, Option, none, some, List, [], ◌∷◌, ◌==◌, is_some, Bool-cases,
  Option-cases, ==_iff, ◌≡◌, refl, ◌⊎◌, inl, inr, arith,
}
use ndy_hub.Common.Handler.{ok, err}
use ndy_hub.Common.Table.{find, update, insert}
use ndy_hub.Common.Table.Laws.{find-update}
use ndy_hub.Workspace.{Actor, owner}
use ndy_hub.Workspace.Tenants.{
  Space, RequestStatus, approved, business, Request, Store, Failure, no_such_request,
  already_resolved, no_free_id, new_space, is_pending, is_request, get_pending, review,
  has_business_id, open_business, allocate, approve, reject,
}

get_pending-cases :
    (id : Key) (s : Store)
    → ((r : Request) × (find (is_request id) s.requests ≡ some r)
        × (is_pending r.status ≡ true)
        × (get_pending id s ≡ (ok r, s)))
      ⊎ ((f : Failure) × (get_pending id s ≡ (err f, s)))
unfolding get_pending
get_pending-cases id s = elim (Option-cases (find (is_request id) s.requests)) [
  | inl missing ↦ inr (no_such_request, ground (arith, missing))
  | inr (r, found) ↦ elim (Bool-cases (is_pending r.status)) [
    | inl waiting ↦ inl (r, found, waiting, ground (arith, found, waiting))
    | inr closed ↦ inr (already_resolved, ground (arith, found, closed))
  ]
]

-- One workspace is made, with the first free id, or none.
allocate-cases :
    (id membership_id : Key) (attempts : List Key) (r : Request) (actor : Actor)
    (reason : Option Key) (now : Time) (s : Store)
    → ((k : Key) × (find (has_business_id k) s.spaces ≡ none)
        × (allocate id membership_id attempts r actor reason now s ≡ (
          ok (new_space id business r.business_name r.requested_by_user_id (some k)),
          open_business id membership_id k r actor reason now s,
        )))
      ⊎ (allocate id membership_id attempts r actor reason now s ≡ (err no_free_id, s))
unfolding allocate
allocate-cases id membership_id [] r actor reason now s = inr refl
allocate-cases id membership_id (k ∷ attempts) r actor reason now s =
    elim (Bool-cases (is_some (find (has_business_id k) s.spaces))) [
      | inr free ↦ inl (k, ground (arith, free), ground (arith, free))
      | inl taken ↦ elim (allocate-cases id membership_id attempts r actor reason now s) [
        | inl (j, unused, made) ↦ inl (j, unused, ground (arith, taken, made))
        | inr full ↦ inr (ground (arith, taken, full))
      ]
    ]

-- The request was pending and someone else's. The new workspace is a business one, with the name
-- asked for and a business id that no workspace has; its author owns it, and is its OWNER.
pub record Opened (id membership_id request_id : Key) (actor : Actor) (s : Store) (w : Space)
    (t : Store) : Type 0 where
  pub request : Request
  pub found : find (is_request request_id) s.requests ≡ some request
  pub waiting : is_pending request.status ≡ true
  pub other : (actor.id == request.requested_by_user_id) ≡ false
  pub same_id : w.id ≡ id
  pub is_business : w.type ≡ business
  pub named : w.name ≡ request.business_name
  pub owned : w.owner_user_id ≡ request.requested_by_user_id
  pub business_id : Key
  pub with_id : w.ndy_business_id ≡ some business_id
  pub unused : find (has_business_id business_id) s.spaces ≡ none
  pub spaces : t.spaces ≡ insert w s.spaces
  pub memberships :
      t.memberships
      ≡ insert
          (record {
            id = membership_id;
            workspace_id = id;
            user_id = request.requested_by_user_id;
            role = owner;
            department = none;
          })
          s.memberships

-- An approval that answers with a workspace was given to a pending request, by someone other than
-- its author. The workspace is the one made: a business one with the name asked for, and with a
-- business id that no workspace had. Its author is its owner and gets the one new membership, with
-- the role OWNER.
pub approve-Opened :
    (id membership_id : Key) (attempts : List Key) (actor : Actor) (request_id : Key)
    (reason : Option Key) (now : Time) (s : Store) (w : Space)
    → (approve id membership_id attempts actor request_id reason now s).0 ≡ ok w
    → Opened id membership_id request_id actor s w
        (approve id membership_id attempts actor request_id reason now s).1
unfolding approve
approve-Opened id membership_id attempts actor request_id reason now s w e =
    elim (get_pending-cases request_id s) [
      | inr (f, failed) ↦ absurd (ground (arith, e, failed))
      | inl (r, found, waiting, read) ↦ elim (Bool-cases (actor.id == r.requested_by_user_id)) [
        | inl self ↦ absurd (ground (arith, e, read, self))
        | inr other ↦ elim (allocate-cases id membership_id attempts r actor reason now s) [
          | inr full ↦ absurd (ground (arith, e, read, other, full))
          | inl (k, unused, made) ↦
              let same : w ≡ new_space id business r.business_name r.requested_by_user_id (some k) =
                ground (arith, e, read, other, made) in
              record {
                request = r;
                found = found;
                waiting = waiting;
                other = other;
                same_id = rw same refl;
                is_business = rw same refl;
                named = rw same refl;
                owned = rw same refl;
                business_id = k;
                with_id = rw same refl;
                unused = unused;
                spaces = ground (arith, read, other, made, same);
                memberships = ground (arith, read, other, made);
              }
        ]
      ]
    ]

closed_refused :
    (id membership_id : Key) (attempts : List Key) (actor : Actor) (request_id : Key)
    (reason : Option Key) (now : Time) (t : Store) {r : Request}
    → find (is_request request_id) t.requests ≡ some r
    → is_pending r.status ≡ false
    → (approve id membership_id attempts actor request_id reason now t ≡ (err already_resolved, t))
      × (reject actor request_id reason now t ≡ (err already_resolved, t))
unfolding approve reject get_pending
closed_refused id membership_id attempts actor request_id reason now t found closed =
    (ground (arith, found, closed), ground (arith, found, closed))

find-review :
    (request_id : Key) (status : RequestStatus) (created : Option Key) (actor : Actor)
    (reason : Option Key) (now : Time) (requests : List Request) {r : Request}
    → find (is_request request_id) requests ≡ some r
    → find
        (is_request request_id)
        (update (is_request r.id) (review status created actor reason now) requests)
      ≡ some (review status created actor reason now r)
find-review request_id status created actor reason now requests {r} found = ground (
  arith,
  found,
  ==_iff r.id r.id,
  find-update (is_request request_id) (is_request r.id) (review status created actor reason now)
      requests (λ q. refl),
)

-- An approved request is closed: it is neither approved nor rejected again, by anyone.
pub approve-closed :
    (id membership_id id' membership_id' : Key) (attempts attempts' : List Key)
    (actor actor' : Actor) (request_id : Key) (reason reason' : Option Key) (now later : Time)
    (s : Store) (w : Space)
    → (approve id membership_id attempts actor request_id reason now s).0 ≡ ok w
    → let t = (approve id membership_id attempts actor request_id reason now s).1 in
      (approve id' membership_id' attempts' actor' request_id reason' later t
        ≡ (err already_resolved, t))
      × (reject actor' request_id reason' later t ≡ (err already_resolved, t))
unfolding approve
approve-closed id membership_id id' membership_id' attempts attempts' actor actor' request_id reason
      reason' now later s w e =
    let t = (approve id membership_id attempts actor request_id reason now s).1 in
    elim (get_pending-cases request_id s) [
      | inr (f, failed) ↦ absurd (ground (arith, e, failed))
      | inl (r, found, waiting, read) ↦ elim (Bool-cases (actor.id == r.requested_by_user_id)) [
        | inl self ↦ absurd (ground (arith, e, read, self))
        | inr other ↦ elim (allocate-cases id membership_id attempts r actor reason now s) [
          | inr full ↦ absurd (ground (arith, e, read, other, full))
          | inl (k, unused, made) ↦
              closed_refused id' membership_id' attempts' actor' request_id reason' later t
                {r = review approved (some id) actor reason now r}
                (ground (
                  arith,
                  read,
                  other,
                  made,
                  find-review request_id approved (some id) actor reason now s.requests found,
                ))
                refl
        ]
      ]
    ]
