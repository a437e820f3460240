-- ===== src/Actions/Engine/Tests.antt =====
-- The theorems on actions at concrete inputs.
use ndy_hub.Common.{Key, true, false, not, none, some, List, [], ◌∷◌, ◌==◌, ◌≡◌, refl, ◌⊎◌, String}
use ndy_hub.Common.Handler.{ok, err}
use ndy_hub.Common.Table.{find, update, insert}
use ndy_hub.Workspace
use ndy_hub.Actions.Registry.{Entry}
use ndy_hub.Actions.Engine.{
  OriginType, user_direct, agent, Input, pending_approval, denied_by_user, LogEntry, approved,
  denied_approval, Approval, Store, Domain, ActionResult, was_executed, was_rejected,
  already_resolved, new_log, new_approval, execute, execute_approved, run_or_ask, authorize, submit,
  load_approval, confirm, resolve_approval,
}
use ndy_hub.Actions.Registry.{calendar_event_create}
use ndy_hub.Actions.Engine.Gate.{MayRun, submit-MayRun}
use ndy_hub.Actions.Engine.Growth.{Submission, submit_all}
use ndy_hub.Actions.Engine.Replay.{forget, submit_twice}
use ndy_hub.Actions.Engine.Resolution.{
  Waits, ResolvedBy, resolve_approval-Waits, resolve_once, resolve_approval_by_anyone,
}
use ndy_hub.Actions.Engine.Races.{World, Reach, idle, resolved_by_two}
use ndy_hub.Actions.Engine.Agents.{agents_shut_out}

-- A service that keeps the parameters of its calls; the parameter 0 is not valid.
abbrev journal : Domain (List Key)
journal = record {
  is_valid = λ e params. not (params == 0);
  perform = λ e user_id params done. (ok (some params), params ∷ done);
}

abbrev request_for : String → OriginType → Input
request_for action_key type = record {
  action_key = action_key;
  workspace_id = 1;
  requested_by_user_id = 2;
  requested_by_ndy_id = 3;
  origin = record { type = type; detail = some 9 };
  params = 40;
  idempotency_key = 50;
}

abbrev task : Input
task = request_for "task.create" user_direct

abbrev event : Input
event = request_for "calendar.event.create" user_direct

abbrev membership : Workspace.Membership
membership = record {
  id = 1;
  workspace_id = 1;
  user_id = 2;
  role = Workspace.owner;
  department = none;
}

abbrev started : Store (List Key)
started = record {
  consent = record { clients = []; grants = [] };
  memberships = membership ∷ [];
  switches =
      record { action_key = "task.create"; enabled = true }
      ∷ record { action_key = "calendar.event.create"; enabled = true }
      ∷ [];
  logs = [];
  approvals = [];
  domain = [];
}

submit-MayRun_example :
    let t = (submit journal 60 61 task 1000 started).1 in
    (t.domain ≡ []) ⊎ ((e : Entry) × MayRun journal task started e × (t.domain ≡ 40 ∷ []))
submit-MayRun_example = submit-MayRun journal 60 61 task 1000 started

runs_at_once : (submit journal 60 61 task 1000 started).1.domain ≡ 40 ∷ []
unfolding submit authorize run_or_ask execute find
runs_at_once = refl

abbrev others : List Submission
others =
    record { id = 80; approval_id = 81; input = record event { idempotency_key = 99 }; now = 1500 }
    ∷ []

submit_twice_example :
    let first = submit journal 60 61 task 1000 started in
    (r : ActionResult) × (first.0 ≡ ok r)
    × (submit journal 70 71 task 2000 (submit_all journal others first.1)
        ≡ (ok (forget r), submit_all journal others first.1))
unfolding find
submit_twice_example = submit_twice journal 60 61 70 71 task 1000 2000 started others refl refl

abbrev waiting : Store (List Key)
waiting = (submit journal 60 61 event 1000 started).1

resolve_approval-Waits_example :
    let t = (resolve_approval journal 61 2 true 2000 waiting).1 in
    (t.domain ≡ waiting.domain)
    ⊎ ((true ≡ true)
        × (a : Approval) × (l : LogEntry) × (e : Entry) × Waits journal 61 2000 waiting a l e
        × (t.domain ≡ l.input.params ∷ waiting.domain))
resolve_approval-Waits_example = resolve_approval-Waits journal 61 2 true 2000 waiting

runs_when_approved : (resolve_approval journal 61 2 true 2000 waiting).1.domain ≡ 40 ∷ []
unfolding submit authorize run_or_ask execute resolve_approval load_approval confirm
    execute_approved find update insert
runs_when_approved = refl

resolve_once_example :
    let t = (resolve_approval journal 61 2 true 2000 waiting).1 in
    resolve_approval journal 61 4 false 3000 t ≡ (err already_resolved, t)
unfolding submit authorize run_or_ask execute resolve_approval load_approval confirm
    execute_approved find update insert
resolve_once_example =
    resolve_once journal 61 2 4 true false 2000 3000 waiting (was_executed 60 (some 40)) refl

abbrev held : LogEntry
held = new_log 60 event pending_approval calendar_event_create.risk_tier none none

abbrev asked : Approval
asked = new_approval 61 60 calendar_event_create.risk_tier 1000

resolved_by_two_example :
    (w : World (List Key)) × Reach journal (idle journal waiting) w
    × (w.in_flight ≡ [])
    × (w.store.domain ≡ 40 ∷ 40 ∷ [])
unfolding submit authorize run_or_ask load_approval find insert
resolved_by_two_example =
    resolved_by_two journal waiting 61 2 2000 2001 asked held calendar_event_create refl refl

agents_shut_out_example :
    let t = (submit journal 60 61 (request_for "task.create" agent) 1000 started).1 in
    (t.domain ≡ []) × (t.approvals ≡ [])
agents_shut_out_example =
    agents_shut_out journal 60 61 (request_for "task.create" agent) 1000 started refl

abbrev outsider : Key
outsider = 77

resolve_approval_by_anyone_example :
    let (_, t) = resolve_approval journal 61 outsider true 2000 waiting in
    let (refusal, u) = resolve_approval journal 61 outsider false 2000 waiting in
    (t.domain ≡ 40 ∷ [])
    × ResolvedBy journal outsider approved 2000 asked t
    × (u.domain ≡ [])
    × ResolvedBy journal outsider denied_approval 2000 asked u
    × (refusal ≡ ok (was_rejected 60 (some denied_by_user)))
unfolding submit authorize run_or_ask find insert
resolve_approval_by_anyone_example =
    resolve_approval_by_anyone journal 61 outsider 2000 waiting asked held calendar_event_create
      (record {
        found = refl;
        open_status = refl;
        in_time = refl;
        logged = refl;
        registered = refl;
      })
