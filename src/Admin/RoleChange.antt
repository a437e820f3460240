-- ===== src/Admin/RoleChange.antt =====
-- RoleChangeRequestService (apps/api/src/admin/role-change-request.service.ts): one admin proposes
-- a role for a user, another one approves or rejects it. The ids that the database draws are
-- arguments. A request handler is one run with no other request in between.
pub mod DualControl
pub mod Approval
pub mod Resolution
mod Tests
use ndy_hub.Common.{ℕ, Key, Time, Bool, true, false, not, ◌&&◌, Option, none, some, List, ◌==◌}
use ndy_hub.Common.Handler.{Handler, pure, throw_if, or_throw, query, write, ◌>>=◌, ◌>>◌}
use ndy_hub.Common.Table.{find, update, insert}
use ndy_hub.Identity.{NdyIdType, format_ndy_id, ndy_id_type_for_user}
use ndy_hub.Access.{Role, founder, founder_only_assignable, role_eq}

pub record User : Type 0 where
  pub id : Key
  pub ndy_id : List ℕ
  pub ndy_core_id : List ℕ
  pub ndy_id_type : Option NdyIdType
  pub role : Role

pub data Status : Type 0 where
  pending approved rejected : Status

pub record Request : Type 0 where
  pub id : Key
  pub target_user_id : Key
  pub target_ndy_id : List ℕ
  pub requested_role : Role
  pub previous_role : Role
  pub requested_by_user_id : Key
  pub requested_by_ndy_id : List ℕ
  pub request_reason : Option Key
  pub status : Status
  pub reviewed_by_user_id : Option Key
  pub reviewed_by_ndy_id : Option (List ℕ)
  pub review_reason : Option Key
  pub resolved_at : Option Time

-- The actions of the audit log with the values that they record.
pub data AuditAction : Type 0 where
  role_requested : Role → Role → Key → AuditAction
  role_approved : Role → Role → List ℕ → List ℕ → AuditAction
  role_rejected : Role → List ℕ → List ℕ → AuditAction

pub record AuditEntry : Type 0 where
  pub admin_user_id : Key
  pub admin_ndy_id : List ℕ
  pub action : AuditAction
  pub target_user_id : Key
  pub target_ndy_id : List ℕ
  pub reason : Option Key
  pub ip : Option Key

pub record Store : Type 0 where
  pub users : List User
  pub requests : List Request
  pub audit_log : List AuditEntry

-- `AdminActor`
pub record Actor : Type 0 where
  pub id : Key
  pub ndy_id : List ℕ
  pub ip : Option Key

pub data Failure : Type 0 where
  founder_only no_such_user no_such_request already_resolved self_review : Failure

abbrev pub is_user : Key → User → Bool
is_user id u = u.id == id

abbrev pub is_request : Key → Request → Bool
is_request id r = r.id == id

abbrev pub is_pending : Status → Bool
is_pending pending = true
is_pending _ = false

abbrev pub is_founder : Option User → Bool
is_founder none = false
is_founder (some u) = role_eq u.role founder

-- The role may be requested and decided on by a Founder alone, and the actor is none.
-- (`assertActorCanDecide`, and the first lines of `create`)
pub lacks_authority : Actor → Role → Store → Bool
lacks_authority actor role s =
    founder_only_assignable role && not (is_founder (find (is_user actor.id) s.users))

-- `writeAuditLog`
abbrev pub audit : Actor → AuditAction → Key → List ℕ → Option Key → Store → Store
audit actor action target_id target_ndy_id reason s = record s {
  audit_log =
      insert
        (record {
          admin_user_id = actor.id;
          admin_ndy_id = actor.ndy_id;
          action = action;
          target_user_id = target_id;
          target_ndy_id = target_ndy_id;
          reason = reason;
          ip = actor.ip;
        })
        s.audit_log;
}

abbrev pub new_request : Key → Actor → User → Role → Option Key → Request
new_request id actor target role reason = record {
  id = id;
  target_user_id = target.id;
  target_ndy_id = target.ndy_id;
  requested_role = role;
  previous_role = target.role;
  requested_by_user_id = actor.id;
  requested_by_ndy_id = actor.ndy_id;
  request_reason = reason;
  status = pending;
  reviewed_by_user_id = none;
  reviewed_by_ndy_id = none;
  review_reason = none;
  resolved_at = none;
}

pub create : Key → Actor → Key → Role → Option Key → Handler Store Failure Request
unfolding lacks_authority
create id actor target_id role reason = do
  throw_if (← query (lacks_authority actor role)) founder_only
  target ← or_throw (← query (λ s. find (is_user target_id) s.users)) no_such_user
  write (λ s. record s { requests = insert (new_request id actor target role reason) s.requests })
  write (audit actor (role_requested target.role role id) target.id target.ndy_id reason)
  pure (new_request id actor target role reason)

-- `getPendingOrThrow`, `assertNotSelfReview` and `assertActorCanDecide`
pub reviewable : Actor → Key → Handler Store Failure Request
unfolding lacks_authority
reviewable actor id = do
  r ← or_throw (← query (λ s. find (is_request id) s.requests)) no_such_request
  throw_if (not (is_pending r.status)) already_resolved
  throw_if (actor.id == r.requested_by_user_id) self_review
  throw_if (← query (lacks_authority actor r.requested_role)) founder_only
  pure r

abbrev pub resolve : Status → Actor → Option Key → Time → Request → Request
resolve status actor reason now r = record r {
  status = status;
  reviewed_by_user_id = some actor.id;
  reviewed_by_ndy_id = some actor.ndy_id;
  review_reason = reason;
  resolved_at = some now;
}

-- The new role and the id rebuilt from the permanent core.
abbrev pub assign : Role → User → User → User
assign role target u = record u {
  role = role;
  ndy_id = format_ndy_id target.ndy_core_id (ndy_id_type_for_user target.ndy_id_type role);
}

pub approve : Actor → Key → Option Key → Time → Handler Store Failure Request
unfolding reviewable
approve actor id reason now = do
  r ← reviewable actor id
  target ← or_throw (← query (λ s. find (is_user r.target_user_id) s.users)) no_such_user
  write (λ s. record s {
    users = update (is_user r.target_user_id) (assign r.requested_role target) s.users;
    requests = update (is_request r.id) (resolve approved actor reason now) s.requests;
  })
  write (
      audit actor
        (role_approved r.previous_role r.requested_role r.requested_by_ndy_id actor.ndy_id)
        target.id target.ndy_id reason)
  pure (resolve approved actor reason now r)

pub reject : Actor → Key → Option Key → Time → Handler Store Failure Request
unfolding reviewable
reject actor id reason now = do
  r ← reviewable actor id
  write (λ s. record s {
    requests = update (is_request r.id) (resolve rejected actor reason now) s.requests;
  })
  write (
      audit actor (role_rejected r.requested_role actor.ndy_id r.requested_by_ndy_id)
        r.target_user_id r.target_ndy_id reason)
  pure (resolve rejected actor reason now r)
