-- ===== src/Workspace/Tenants.antt =====
-- WorkspaceService and BusinessWorkspaceService (apps/api/src/workspace/workspace.service.ts and
-- business-workspace.service.ts): personal workspaces, membership checks, and the request for a
-- business workspace. The ids that are drawn and the time are arguments; names are numbers, and the
-- trimmed name is an argument.
pub mod Personal
pub mod Business
mod Tests
use ndy_hub.Common.{
  Key, Time, Bool, true, false, not, ◌&&◌, Option, none, some, List, [], ◌∷◌, ◌==◌, if◌then◌else◌,
  is_some, is_none,
}
use ndy_hub.Common.Handler.{ok, err, Handler, pure, throw_if, or_throw, query, write, ◌>>=◌, ◌>>◌}
use ndy_hub.Common.Table.{find, update, insert}
use ndy_hub.Workspace.{WorkspaceRole, owner, admin, member, Membership, Actor, is_membership}

-- `WorkspaceType`
pub data WorkspaceType : Type 0 where
  personal business : WorkspaceType

pub record Space : Type 0 where
  pub id : Key
  pub type : WorkspaceType
  pub name : Key
  pub owner_user_id : Key
  pub ndy_business_id : Option Key

-- `name` is `fullName ?? ndyId`.
pub record User : Type 0 where
  pub id : Key
  pub name : Key
  pub default_workspace_id : Option Key

-- `BusinessWorkspaceRequestStatus`
pub data RequestStatus : Type 0 where
  pending approved rejected : RequestStatus

-- `BusinessWorkspaceRequest`
pub record Request : Type 0 where
  pub id : Key
  pub requested_by_user_id : Key
  pub requested_by_ndy_id : Key
  pub business_name : Key
  pub request_reason : Option Key
  pub status : RequestStatus
  pub reviewed_by_user_id : Option Key
  pub reviewed_by_ndy_id : Option Key
  pub review_reason : Option Key
  pub resolved_at : Option Time
  pub created_workspace_id : Option Key

pub record Store : Type 0 where
  pub users : List User
  pub spaces : List Space
  pub memberships : List Membership
  pub requests : List Request

pub data Failure : Type 0 where
  no_such_user not_a_member name_required no_such_request already_resolved self_review no_free_id :
      Failure
  wrong_role : WorkspaceRole → Failure

abbrev pub is_user : Key → User → Bool
is_user id u = u.id == id

abbrev pub is_space : Key → Space → Bool
is_space id w = w.id == id

abbrev pub is_owner : WorkspaceRole → Bool
is_owner owner = true
is_owner _ = false

abbrev pub is_personal : WorkspaceType → Bool
is_personal personal = true
is_personal business = false

abbrev pub in_personal : List Space → Membership → Bool
in_personal spaces m = elim (find (is_space m.workspace_id) spaces) [
  | none ↦ false
  | some w ↦ is_personal w.type
]

-- `where: { userId, role: OWNER, workspace: { type: PERSONAL } }`
abbrev pub owns_personal : Key → List Space → Membership → Bool
owns_personal user_id spaces m = m.user_id == user_id && (is_owner m.role && in_personal spaces m)

abbrev pub new_space : Key → WorkspaceType → Key → Key → Option Key → Space
new_space id type name owner_user_id ndy_business_id = record {
  id = id;
  type = type;
  name = name;
  owner_user_id = owner_user_id;
  ndy_business_id = ndy_business_id;
}

abbrev pub owner_membership : Key → Key → Key → Membership
owner_membership id workspace_id user_id = record {
  id = id;
  workspace_id = workspace_id;
  user_id = user_id;
  role = owner;
  department = none;
}

abbrev pub set_default : Key → Key → List User → List User
set_default user_id workspace_id =
    update (is_user user_id) (λ u. record u { default_workspace_id = some workspace_id })

-- The workspace that `defaultWorkspaceId` points at, where it is there.
abbrev pub default_space : User → Store → Option Space
default_space u s = elim u.default_workspace_id [
  | none ↦ none
  | some id ↦ find (is_space id) s.spaces
]

-- The workspace of a membership that owns a personal one.
abbrev pub owned_space : Key → Store → Option Space
owned_space user_id s = elim (find (owns_personal user_id s.spaces) s.memberships) [
  | none ↦ none
  | some m ↦ find (is_space m.workspace_id) s.spaces
]

-- The transaction that makes a personal workspace.
abbrev pub make_personal : Key → Key → User → Store → Store
make_personal id membership_id u s = record s {
  spaces = insert (new_space id personal u.name u.id none) s.spaces;
  memberships = insert (owner_membership membership_id id u.id) s.memberships;
  users = set_default u.id id s.users;
}

abbrev pub find_or_make : Key → Key → User → Handler Store Failure Space
find_or_make id membership_id u s = elim (default_space u s) [
  | some w ↦ (ok w, s)
  | none ↦ elim (owned_space u.id s) [
    | some w ↦ (ok w, record s { users = set_default u.id w.id s.users })
    | none ↦ (ok (new_space id personal u.name u.id none), make_personal id membership_id u s)
  ]
]

-- `getOrCreatePersonalWorkspace`
pub get_or_create_personal_workspace : Key → Key → Key → Handler Store Failure Space
get_or_create_personal_workspace id membership_id user_id = do
  u ← or_throw (← query (λ s. find (is_user user_id) s.users)) no_such_user
  find_or_make id membership_id u

-- `assertMember`
pub assert_member : Key → Key → Handler Store Failure Membership
assert_member user_id workspace_id = do
  m ← query (λ s. find (is_membership workspace_id user_id) s.memberships)
  or_throw m not_a_member

abbrev pub same_role : WorkspaceRole → WorkspaceRole → Bool
same_role owner owner = true
same_role admin admin = true
same_role member member = true
same_role _ _ = false

-- `assertRole`
pub assert_role : Key → Key → List WorkspaceRole → Handler Store Failure Membership
unfolding assert_member
assert_role user_id workspace_id allowed = do
  m ← assert_member user_id workspace_id
  throw_if (is_none (find (same_role m.role) allowed)) (wrong_role m.role)
  pure m

abbrev pub is_pending : RequestStatus → Bool
is_pending pending = true
is_pending _ = false

abbrev pub is_request : Key → Request → Bool
is_request id r = r.id == id

-- `createRequest`; the name is given trimmed, `none` where nothing is left of it.
pub create_request : Key → Actor → Option Key → Option Key → Handler Store Failure Request
create_request id actor trimmed reason = do
  name ← or_throw trimmed name_required
  let r : Request = record {
    id = id;
    requested_by_user_id = actor.id;
    requested_by_ndy_id = actor.ndy_id;
    business_name = name;
    request_reason = reason;
    status = pending;
    reviewed_by_user_id = none;
    reviewed_by_ndy_id = none;
    review_reason = none;
    resolved_at = none;
    created_workspace_id = none;
  }
  write (λ s. record s { requests = insert r s.requests })
  pure r

-- `getPendingOrThrow`
pub get_pending : Key → Handler Store Failure Request
get_pending id = do
  r ← or_throw (← query (λ s. find (is_request id) s.requests)) no_such_request
  throw_if (not (is_pending r.status)) already_resolved
  pure r

abbrev pub review : RequestStatus → Option Key → Actor → Option Key → Time → Request → Request
review status created actor reason now r = record r {
  status = status;
  reviewed_by_user_id = some actor.id;
  reviewed_by_ndy_id = some actor.ndy_id;
  review_reason = reason;
  resolved_at = some now;
  created_workspace_id = elim created [ none ↦ r.created_workspace_id | some id ↦ some id ];
}

abbrev pub has_business_id : Key → Space → Bool
has_business_id k w = elim w.ndy_business_id [ none ↦ false | some j ↦ j == k ]

-- The transaction of an approval.
abbrev pub open_business : Key → Key → Key → Request → Actor → Option Key → Time → Store → Store
open_business id membership_id business_id r actor reason now s = record s {
  spaces =
      insert (new_space id business r.business_name r.requested_by_user_id (some business_id))
        s.spaces;
  memberships = insert (owner_membership membership_id id r.requested_by_user_id) s.memberships;
  requests = update (is_request r.id) (review approved (some id) actor reason now) s.requests;
}

-- The loop over the business ids that the attempts draw: a taken one is drawn again.
pub allocate :
    Key → Key → List Key → Request → Actor → Option Key → Time → Handler Store Failure Space
allocate id membership_id [] r actor reason now s = (err no_free_id, s)
allocate id membership_id (k ∷ attempts) r actor reason now s =
    let again = allocate id membership_id attempts r actor reason now s in
    if is_some (find (has_business_id k) s.spaces) then again else (
      ok (new_space id business r.business_name r.requested_by_user_id (some k)),
      open_business id membership_id k r actor reason now s,
    )

-- `approve`
pub approve : Key → Key → List Key → Actor → Key → Option Key → Time → Handler Store Failure Space
unfolding get_pending allocate
approve id membership_id attempts actor request_id reason now = do
  r ← get_pending request_id
  throw_if (actor.id == r.requested_by_user_id) self_review
  allocate id membership_id attempts r actor reason now

-- `reject`
pub reject : Actor → Key → Option Key → Time → Handler Store Failure Request
unfolding get_pending
reject actor request_id reason now = do
  r ← get_pending request_id
  write (λ s. record s {
    requests = update (is_request r.id) (review rejected none actor reason now) s.requests;
  })
  pure (review rejected none actor reason now r)
