-- ===== src/Actions/Engine/Rows.antt =====
-- The tables of the action engine (apps/api/prisma/schema.prisma), its requests and its answers
-- (apps/api/src/action-engine/action-engine.service.ts).
use ndy_hub.Common.{ℕ, Key, Time, Bool, Option, List, ◌*◌, String}
use ndy_hub.Common.Handler.{Result}
use ndy_hub.Workspace
use ndy_hub.Actions.Consent
use ndy_hub.Actions.Consent.{Refusal}
use ndy_hub.Actions.Registry.{RiskTier, Entry}

pub data OriginType : Type 0 where
  user_direct ai_command agent trigger external_api : OriginType

-- `ActionOrigin`
pub record Origin : Type 0 where
  pub type : OriginType
  pub detail : Option Key

-- `ActionRequestInput`
pub record Input : Type 0 where
  pub action_key : String
  pub workspace_id : Key
  pub requested_by_user_id : Key
  pub requested_by_ndy_id : Key
  pub origin : Origin
  pub params : Key
  pub idempotency_key : Key

-- `ActionExecutionStatus`
pub data LogStatus : Type 0 where
  rejected pending_approval executed denied : LogStatus

-- The texts of the refusals; `failed` carries the message of the error.
pub data Reason : Type 0 where
  unknown_action not_enabled not_a_member invalid_params denied_by_user : Reason
  no_consent : Refusal → Reason
  failed : Key → Reason

pub record LogEntry : Type 0 where
  pub id : Key
  pub input : Input
  pub status : LogStatus
  pub risk_tier : RiskTier
  pub reason : Option Reason
  pub result_summary : Option Key

-- `ActionApprovalStatus`
pub data ApprovalStatus : Type 0 where
  pending approved denied_approval expired : ApprovalStatus

pub record Approval : Type 0 where
  pub id : Key
  pub action_log_id : Key
  pub risk_tier : RiskTier
  pub requires_strong_auth : Bool
  pub status : ApprovalStatus
  pub expires_at : Time
  pub resolved_by_user_id : Option Key
  pub resolved_at : Option Time

-- A row of the table `ActionDefinition`, which can disable an action.
pub record Switch : Type 0 where
  pub action_key : String
  pub enabled : Bool

-- `D` is what the domain services keep.
pub record Store (D : Type 0) : Type 0 where
  pub consent : Consent.Store
  pub memberships : List Workspace.Membership
  pub switches : List Switch
  pub logs : List LogEntry
  pub approvals : List Approval
  pub domain : D

-- The services behind the actions: the check of the parameters, and a call for a user with its
-- result, the id of what it made or the message of what it threw.
pub record Domain (D : Type 0) : Type 0 where
  pub is_valid : Entry → Key → Bool
  pub perform : Entry → Key → Key → D → Result Key (Option Key) × D

-- `ActionResult`
pub data ActionResult : Type 0 where
  was_executed : Key → Option Key → ActionResult
  awaits_approval : Key → Option Key → ActionResult
  was_rejected : Key → Option Reason → ActionResult

pub data Failure : Type 0 where
  no_such_approval already_resolved approval_expired no_such_action : Failure

abbrev pub approval_ttl_ms : ℕ
approval_ttl_ms = 48 * 60 * 60 * 1000
