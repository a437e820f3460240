-- ===== src/Actions/Engine.antt =====
-- ActionEngineService (apps/api/src/action-engine/action-engine.service.ts). The services that the
-- actions call and the validation of their parameters are an interface. Notifications are left
-- out. The ids that the database draws and the time are arguments. A request is one run with no
-- other request in between, except in `Races`.
pub mod Rows
pub mod Gate
pub mod Growth
pub mod Replay
pub mod Resolution
pub mod Agents
pub mod Races
mod Tests
use ndy_hub.Common.{
  Key, Time, Bool, true, false, not, Option, none, some, List, map, ltb, ◌==◌, if◌then◌else◌,
  is_some, ◌+◌, String,
}
use ndy_hub.Common.Handler.{
  Result, ok, err, Handler, pure, throw, throw_if, or_throw, query, write, ◌>>=◌, ◌>>◌,
}
use ndy_hub.Common.Table.{find, update, insert}
pub use ndy_hub.Actions.Engine.Rows.{
  OriginType, Origin, Input, LogStatus, Reason, LogEntry, ApprovalStatus, Approval, Switch, Store,
  Domain, ActionResult, Failure, user_direct, ai_command, agent, trigger, external_api, rejected,
  pending_approval, executed, denied, unknown_action, not_enabled, not_a_member, invalid_params,
  denied_by_user, no_consent, failed, pending, approved, denied_approval, expired, was_executed,
  awaits_approval, was_rejected, no_such_approval, already_resolved, approval_expired,
  no_such_action, approval_ttl_ms,
}
use mathlib.Core.Option
use ndy_hub.Workspace
use ndy_hub.Actions.Consent
use ndy_hub.Actions.Consent.{ConsentCheck, allowed, refused, assert_consent}
use ndy_hub.Actions.Registry.{RiskTier, low, is_low, is_critical, Entry, find_action_definition}
use text.Mathlib.Text.{◌==◌ as str_eq}

abbrev pub is_agent : OriginType → Bool
is_agent agent = true
is_agent _ = false

abbrev pub is_pending : ApprovalStatus → Bool
is_pending pending = true
is_pending _ = false

abbrev pub is_log : Key → LogEntry → Bool
is_log id l = l.id == id

abbrev pub has_key : Key → LogEntry → Bool
has_key k l = l.input.idempotency_key == k

abbrev pub is_approval : Key → Approval → Bool
is_approval id a = a.id == id

abbrev pub of_log : Key → Approval → Bool
of_log log_id a = a.action_log_id == log_id

-- `toResult`
abbrev pub to_result : LogEntry → Option Approval → ActionResult
to_result l approval = elim l.status [
  | executed ↦ was_executed l.id none
  | pending_approval ↦ awaits_approval l.id (Option.map (λ (a : Approval). a.id) approval)
  | rejected ↦ was_rejected l.id l.reason
  | denied ↦ was_rejected l.id l.reason
]

abbrev pub new_log : Key → Input → LogStatus → RiskTier → Option Reason → Option Key → LogEntry
new_log id input status tier reason summary = record {
  id = id;
  input = input;
  status = status;
  risk_tier = tier;
  reason = reason;
  result_summary = summary;
}

abbrev pub new_approval : Key → Key → RiskTier → Time → Approval
new_approval id log_id tier now = record {
  id = id;
  action_log_id = log_id;
  risk_tier = tier;
  requires_strong_auth = is_critical tier;
  status = pending;
  expires_at = now + approval_ttl_ms;
  resolved_by_user_id = none;
  resolved_at = none;
}

abbrev pub resolve : ApprovalStatus → Key → Time → Approval → Approval
resolve status user_id now a = record a {
  status = status;
  resolved_by_user_id = some user_id;
  resolved_at = some now;
}

-- The check of an agent's consent; other origins pass it.
abbrev pub consent_of : Input → Entry → Consent.Store → ConsentCheck
consent_of i e s =
    if is_agent i.origin.type
    then assert_consent i.requested_by_user_id i.origin.detail e.required_scopes s
    else allowed

abbrev pub is_switch : String → Switch → Bool
is_switch action_key w = str_eq w.action_key action_key

-- The row is there and enabled.
abbrev pub is_enabled : String → List Switch → Bool
is_enabled action_key switches = elim (find (is_switch action_key) switches) [
  | none ↦ false
  | some w ↦ w.enabled
]

-- `assertMember` of WorkspaceService
abbrev pub is_member : Input → List Workspace.Membership → Bool
is_member i memberships =
    is_some (find (Workspace.is_membership i.workspace_id i.requested_by_user_id) memberships)

-- What the `update` of an existing entry changes after a run.
abbrev pub outcome : Result Key (Option Key) → LogEntry → LogEntry
outcome (ok none) l = record l { status = executed }
outcome (ok (some summary)) l = record l { status = executed; result_summary = some summary }
outcome (err message) l = record l { status = rejected; reason = some (failed message) }

abbrev pub answer : Key → Result Key (Option Key) → ActionResult
answer log_id (ok result) = was_executed log_id result
answer log_id (err message) = was_rejected log_id (some (failed message))

module _ {D : Type 0} where
  -- `writeLog`
  abbrev pub write_log : LogEntry → Store D → Store D
  write_log l s = record s { logs = insert l s.logs }

  abbrev pub set_log : Key → (LogEntry → LogEntry) → Store D → Store D
  set_log id f s = record s { logs = update (is_log id) f s.logs }

  abbrev pub set_approval : Key → (Approval → Approval) → Store D → Store D
  set_approval id f s = record s { approvals = update (is_approval id) f s.approvals }

  -- `reject`
  abbrev pub reject : Key → Input → RiskTier → Reason → Handler (Store D) Failure ActionResult
  reject id i tier reason = do
    write (write_log (new_log id i rejected tier (some reason) none))
    pure (was_rejected id (some reason))

  module _ (domain : Domain D) where
    abbrev pub call : Entry → Key → Key → Store D → Result Key (Option Key)
    call e user_id params s = (domain.perform e user_id params s.domain).0

    -- The call of the action; what it did before it threw stays.
    abbrev pub performed : Entry → Key → Key → Store D → Store D
    performed e user_id params s = record s {
      domain = (domain.perform e user_id params s.domain).1;
    }

    -- `execute` with an entry of its own
    pub execute : Key → Input → Entry → Handler (Store D) Failure ActionResult
    execute id i e = do
      r ← query (call e i.requested_by_user_id i.params)
      write (performed e i.requested_by_user_id i.params)
      write (write_log (outcome r (new_log id i executed e.risk_tier none none)))
      pure (answer id r)

    -- `execute` for an entry that waited for its approval
    pub execute_approved : LogEntry → Entry → Handler (Store D) Failure ActionResult
    execute_approved l e = do
      r ← query (call e l.input.requested_by_user_id l.input.params)
      write (performed e l.input.requested_by_user_id l.input.params)
      write (set_log l.id (outcome r))
      pure (answer l.id r)

    -- The entry and the approval that a human resolves later.
    abbrev pub ask : Key → Key → Input → Entry → Time → Handler (Store D) Failure ActionResult
    ask id approval_id i e now = do
      write (write_log (new_log id i pending_approval e.risk_tier none none))
      write (λ s. record s {
        approvals = insert (new_approval approval_id id e.risk_tier now) s.approvals;
      })
      pure (awaits_approval id (some approval_id))

    -- The validation and the check of the risk tier.
    pub run_or_ask : Key → Key → Input → Entry → Time → Handler (Store D) Failure ActionResult
    unfolding execute
    run_or_ask id approval_id i e now =
        if not (domain.is_valid e i.params)
        then reject id i e.risk_tier invalid_params
        else if is_low e.risk_tier
        then execute id i e
        else ask id approval_id i e now

    abbrev pub after_consent :
        ConsentCheck → Key → Key → Input → Entry → Time → Handler (Store D) Failure ActionResult
    after_consent (refused why) id approval_id i e now = reject id i e.risk_tier (no_consent why)
    after_consent allowed id approval_id i e now = run_or_ask id approval_id i e now

    -- The checks of a registered action: switch, membership and consent.
    pub authorize : Key → Key → Input → Entry → Time → Handler (Store D) Failure ActionResult
    authorize id approval_id i e now s =
        if not (is_enabled i.action_key s.switches)
        then reject id i e.risk_tier not_enabled s
        else if not (is_member i s.memberships)
        then reject id i e.risk_tier not_a_member s
        else after_consent (consent_of i e s.consent) id approval_id i e now s

    pub submit : Key → Key → Input → Time → Handler (Store D) Failure ActionResult
    submit id approval_id i now s = elim (find (has_key i.idempotency_key) s.logs) [
      | some l ↦ (ok (to_result l (find (of_log l.id) s.approvals)), s)
      | none ↦ elim (find_action_definition i.action_key) [
        | none ↦ reject id i low unknown_action s
        | some e ↦ authorize id approval_id i e now s
      ]
    ]

    -- The read of `resolveApproval` and its guards. An approval past its date is marked before
    -- the exception is thrown. That the log entry exists is the table's foreign key.
    pub load_approval : Key → Time → Handler (Store D) Failure (Approval × LogEntry × Entry)
    load_approval approval_id now = do
      a ← or_throw (← query (λ s. find (is_approval approval_id) s.approvals)) no_such_approval
      throw_if (not (is_pending a.status)) already_resolved
      if ltb a.expires_at now
          then (do
            write (set_approval a.id (λ b. record b { status = expired }))
            throw approval_expired)
          else pure tt
      l ← or_throw (← query (λ s. find (is_log a.action_log_id) s.logs)) no_such_action
      e ← or_throw (find_action_definition l.input.action_key) no_such_action
      pure (a, l, e)

    pub deny : Approval → LogEntry → Key → Time → Handler (Store D) Failure ActionResult
    deny a l user_id now = do
      write (set_approval a.id (resolve denied_approval user_id now))
      write (set_log l.id (λ k. record k { status = denied }))
      pure (was_rejected l.id (some denied_by_user))

    pub confirm : Approval → LogEntry → Entry → Key → Time → Handler (Store D) Failure ActionResult
    unfolding execute_approved
    confirm a l e user_id now = do
      write (set_approval a.id (resolve approved user_id now))
      execute_approved l e

    pub resolve_approval : Key → Key → Bool → Time → Handler (Store D) Failure ActionResult
    unfolding load_approval deny confirm
    resolve_approval approval_id user_id approve now = do
      (a, l, e) ← load_approval approval_id now
      if approve then confirm a l e user_id now else deny a l user_id now
