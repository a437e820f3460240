-- ===== src/Workspace.antt =====
-- WorkspaceInviteService (apps/api/src/workspace/workspace-invite.service.ts). Token hashing is a
-- parameter; the ids and the token that are drawn, and the time, are arguments. The mail and the
-- notification are left out. A request handler is one run with no other request in between.
pub mod Invites
pub mod Tenants
mod Tests
use ndy_hub.Common.{
  ℕ, Key, Time, Bool, true, false, not, ◌&&◌, Option, none, some, List, ltb, ◌==◌, ◌!=◌,
  if◌then◌else◌, is_some, ◌+◌, ◌*◌,
}
use ndy_hub.Common.Handler.{Handler, pure, throw, throw_if, or_throw, query, write, ◌>>=◌, ◌>>◌}
use ndy_hub.Common.Table.{find, update, insert}

pub data WorkspaceRole : Type 0 where
  owner admin member : WorkspaceRole

pub data InviteStatus : Type 0 where
  pending accepted declined expired revoked : InviteStatus

pub record User : Type 0 where
  pub id : Key
  pub email : Key

pub record Invite : Type 0 where
  pub id : Key
  pub workspace_id : Key
  pub invited_email : Key
  pub invited_role : WorkspaceRole
  pub invited_department : Option Key
  pub invited_by_user_id : Key
  pub invited_by_ndy_id : Key
  pub status : InviteStatus
  pub token_hash : Key
  pub expires_at : Time
  pub resolved_at : Option Time

pub record Membership : Type 0 where
  pub id : Key
  pub workspace_id : Key
  pub user_id : Key
  pub role : WorkspaceRole
  pub department : Option Key

pub record Store : Type 0 where
  pub users : List User
  pub workspaces : List Key
  pub invites : List Invite
  pub memberships : List Membership

-- `WorkspaceActor`
pub record Actor : Type 0 where
  pub id : Key
  pub ndy_id : Key

pub data Failure : Type 0 where
  no_such_workspace existing_member invalid_token no_such_invite : Failure
  already_resolved invite_expired no_such_user other_email : Failure

abbrev pub invite_ttl_ms : ℕ
invite_ttl_ms = 7 * 24 * 60 * 60 * 1000

abbrev pub is_pending : InviteStatus → Bool
is_pending pending = true
is_pending _ = false

abbrev pub is_user : Key → User → Bool
is_user id u = u.id == id

abbrev pub is_invite : Key → Invite → Bool
is_invite id i = i.id == id

abbrev pub has_hash : Key → Invite → Bool
has_hash h i = i.token_hash == h

abbrev pub is_membership : Key → Key → Membership → Bool
is_membership workspace_id user_id m = m.workspace_id == workspace_id && m.user_id == user_id

-- The user that `m` belongs to has the email.
abbrev pub has_email : Key → List User → Membership → Bool
has_email email users m = is_some (find (λ (u : User). u.id == m.user_id && u.email == email) users)

abbrev pub resolve : InviteStatus → Time → Invite → Invite
resolve status now i = record i { status = status; resolved_at = some now }

abbrev pub new_membership : Key → Key → Invite → Membership
new_membership id user_id i = record {
  id = id;
  workspace_id = i.workspace_id;
  user_id = user_id;
  role = i.invited_role;
  department = i.invited_department;
}

abbrev pub set_status : Key → InviteStatus → Time → Store → Store
set_status id status now s = record s {
  invites = update (is_invite id) (resolve status now) s.invites;
}

-- An invite past its date is marked before the exception is thrown.
abbrev pub throw_expired : Invite → Time → Handler Store Failure (Unit {0})
throw_expired i now =
    if ltb i.expires_at now
    then (write (set_status i.id expired now) >> throw invite_expired)
    else pure tt

-- The transaction of `accept`: both writes or, where the user is a member already, neither.
abbrev pub join : Key → Key → Invite → Time → Handler Store Failure Membership
join id user_id i now = do
  throw_if (← query (λ s. is_some (find (is_membership i.workspace_id user_id) s.memberships)))
      existing_member
  write (set_status i.id accepted now)
  write (λ s. record s { memberships = insert (new_membership id user_id i) s.memberships })
  pure (new_membership id user_id i)

pub revoke : Key → Time → Handler Store Failure Invite
revoke id now = do
  i ← or_throw (← query (λ s. find (is_invite id) s.invites)) no_such_invite
  throw_if (not (is_pending i.status)) already_resolved
  write (set_status id revoked now)
  pure (resolve revoked now i)

module _ (hash_token : Key → Key) where
  abbrev pub new_invite : Key → Key → Actor → Key → Key → WorkspaceRole → Option Key → Time → Invite
  new_invite id token actor workspace_id email role department now = record {
    id = id;
    workspace_id = workspace_id;
    invited_email = email;
    invited_role = role;
    invited_department = department;
    invited_by_user_id = actor.id;
    invited_by_ndy_id = actor.ndy_id;
    status = pending;
    token_hash = hash_token token;
    expires_at = now + invite_ttl_ms;
    resolved_at = none;
  }

  -- `invite`, which returns the row; the link carries the token.
  pub send_invite :
      Key
      → Key
      → Actor
      → Key
      → Key
      → WorkspaceRole
      → Option Key
      → Time
      → Handler Store Failure Invite
  send_invite id token actor workspace_id email role department now = do
    workspace ←
        or_throw (← query (λ s. find (λ w. w == workspace_id) s.workspaces)) no_such_workspace
    throw_if
        (← query (λ s. is_some (
          find (λ (m : Membership). m.workspace_id == workspace_id && has_email email s.users m)
            s.memberships)))
        existing_member
    write (λ s. record s {
      invites = insert (new_invite id token actor workspace_id email role department now) s.invites;
    })
    pure (new_invite id token actor workspace_id email role department now)

  pub accept : Key → Key → Key → Time → Handler Store Failure Membership
  accept id user_id token now = do
    i ← or_throw (← query (λ s. find (has_hash (hash_token token)) s.invites)) invalid_token
    throw_if (not (is_pending i.status)) already_resolved
    throw_expired i now
    user ← or_throw (← query (λ s. find (is_user user_id) s.users)) no_such_user
    throw_if (user.email != i.invited_email) other_email
    join id user_id i now
