-- ===== src/Actions/Engine/Growth.antt =====
-- Submissions (ActionEngineService.submit, apps/api/src/action-engine/action-engine.service.ts) only
-- add to the log and to the approvals: what a key or an entry is found with, it keeps.
use ndy_hub.Common.{
  Key, Time, none, some, List, [], ◌∷◌, Bool-cases, Option-cases, ◌≡◌, inl, inr, arith,
}
use ndy_hub.Common.Table.{find, insert}
use ndy_hub.Common.Table.Laws.{find-insert}
use mathlib.Core.Path.{subst}
use ndy_hub.Actions.Registry.{RiskTier, low, is_low, Entry, find_action_definition}
use ndy_hub.Actions.Engine.{
  Input, rejected, pending_approval, executed, Reason, unknown_action, not_enabled, not_a_member,
  invalid_params, no_consent, LogEntry, Approval, Store, Domain, has_key, of_log, new_log,
  new_approval, consent_of, is_enabled, is_member, reject, outcome, call, execute, ask, run_or_ask,
  authorize, submit,
}
use ndy_hub.Actions.Engine.Gate.{consent-cases}

kept_log :
    (new : LogEntry) (logs : List LogEntry) (k : Key) (l : LogEntry)
    → find (has_key k) logs ≡ some l
    → find (has_key k) (insert new logs) ≡ some l
kept_log new logs k l found = ground (arith, found, find-insert (has_key k) new logs)

kept_approval :
    (new : Approval) (approvals : List Approval) (k : Key) (a : Approval)
    → find (of_log k) approvals ≡ some a
    → find (of_log k) (insert new approvals) ≡ some a
kept_approval new approvals k a found = ground (arith, found, find-insert (of_log k) new approvals)

-- A submission, with the ids that are drawn for it and its time.
pub record Submission : Type 0 where
  pub id : Key
  pub approval_id : Key
  pub input : Input
  pub now : Time

-- What is found under a key, and the approval of an entry, are found again.
pub record Grows {D : Type 0} (s t : Store D) : Type 0 where
  pub logs :
      (k : Key) (l : LogEntry) → find (has_key k) s.logs ≡ some l → find (has_key k) t.logs ≡ some l
  pub approvals :
      (k : Key) (a : Approval)
      → find (of_log k) s.approvals ≡ some a
      → find (of_log k) t.approvals ≡ some a

module _ {D : Type 0} (domain : Domain D) where
  same-Grows : (s : Store D) → Grows s s
  same-Grows s = record { logs = λ k l found. found; approvals = λ k a found. found }

  reject-Grows :
      (id : Key) (i : Input) (tier : RiskTier) (why : Reason) (s : Store D)
      → Grows s (reject id i tier why s).1
  reject-Grows id i tier why s = record {
    logs = kept_log (new_log id i rejected tier (some why) none) s.logs;
    approvals = λ k a found. found;
  }

  ask-Grows :
      (id approval_id : Key) (i : Input) (e : Entry) (now : Time) (s : Store D)
      → Grows s (ask domain id approval_id i e now s).1
  ask-Grows id approval_id i e now s = record {
    logs = kept_log (new_log id i pending_approval e.risk_tier none none) s.logs;
    approvals = kept_approval (new_approval approval_id id e.risk_tier now) s.approvals;
  }

  execute-Grows :
      (id : Key) (i : Input) (e : Entry) (s : Store D) → Grows s (execute domain id i e s).1
  unfolding execute
  execute-Grows id i e s = record {
    logs =
        kept_log
          (outcome (call domain e i.requested_by_user_id i.params s)
            (new_log id i executed e.risk_tier none none))
          s.logs;
    approvals = λ k a found. found;
  }

  run_or_ask-Grows :
      (id approval_id : Key) (i : Input) (e : Entry) (now : Time) (s : Store D)
      → Grows s (run_or_ask domain id approval_id i e now s).1
  unfolding run_or_ask
  run_or_ask-Grows id approval_id i e now s = elim (Bool-cases (domain.is_valid e i.params)) [
    | inr bad ↦ rw bad (reject-Grows id i e.risk_tier invalid_params s)
    | inl good ↦ elim (Bool-cases (is_low e.risk_tier)) [
      | inr risky ↦ rw (good, risky) (ask-Grows id approval_id i e now s)
      | inl harmless ↦ rw (good, harmless) (execute-Grows id i e s)
    ]
  ]

  authorize-Grows :
      (id approval_id : Key) (i : Input) (e : Entry) (now : Time) (s : Store D)
      → Grows s (authorize domain id approval_id i e now s).1
  unfolding authorize
  authorize-Grows id approval_id i e now s =
      elim (Bool-cases (is_enabled i.action_key s.switches)) [
        | inr off ↦ rw off (reject-Grows id i e.risk_tier not_enabled s)
        | inl on ↦ elim (Bool-cases (is_member i s.memberships)) [
          | inr outside ↦ rw (on, outside) (reject-Grows id i e.risk_tier not_a_member s)
          | inl inside ↦ elim (consent-cases (consent_of i e s.consent)) [
            | inr (why, refusal) ↦
                rw (on, inside, refusal) (reject-Grows id i e.risk_tier (no_consent why) s)
            | inl fine ↦ rw (on, inside, fine) (run_or_ask-Grows id approval_id i e now s)
          ]
        ]
      ]

  submit-Grows :
      (id approval_id : Key) (i : Input) (now : Time) (s : Store D)
      → Grows s (submit domain id approval_id i now s).1
  unfolding submit
  submit-Grows id approval_id i now s =
      elim (Option-cases (find (has_key i.idempotency_key) s.logs)) [
        | inr (l, known) ↦ subst (λ t. Grows s t) {x = s} (ground (arith, known)) (same-Grows s)
        | inl new ↦ elim (Option-cases (find_action_definition i.action_key)) [
          | inl unknown ↦
              subst (λ t. Grows s t) {x = (reject {D = D} id i low unknown_action s).1}
                (ground (arith, new, unknown)) (reject-Grows id i low unknown_action s)
          | inr (e, listed) ↦
              subst (λ t. Grows s t) {x = (authorize domain id approval_id i e now s).1}
                (ground (arith, new, listed)) (authorize-Grows id approval_id i e now s)
        ]
      ]

  pub submit_all : List Submission → Store D → Store D
  submit_all [] s = s
  submit_all (x ∷ xs) s = submit_all xs (submit domain x.id x.approval_id x.input x.now s).1

  pub submit_all-Grows : (xs : List Submission) (s : Store D) → Grows s (submit_all xs s)
  unfolding submit_all
  submit_all-Grows [] s = same-Grows s
  submit_all-Grows (x ∷ xs) s =
      let t = (submit domain x.id x.approval_id x.input x.now s).1 in
      let first = submit-Grows x.id x.approval_id x.input x.now s in
      let rest = submit_all-Grows xs t in
      record {
        logs = λ k l found. rest.logs k l (first.logs k l found);
        approvals = λ k a found. rest.approvals k a (first.approvals k a found);
      }
