-- ===== src/Actions/Engine/Replay.antt =====
-- A request that is sent again is answered as the first time and changes nothing, whatever else has
-- been submitted.
use ndy_hub.Common.{
  Key, Time, Option, none, some, List, Bool-cases, Option-cases, ==_iff, ◌≡◌, refl, ap, ◌∙◌, ◌⊎◌,
  inl, inr, arith,
}
use ndy_hub.Common.Handler.{Result, ok, err}
use ndy_hub.Common.Table.{find, insert}
use ndy_hub.Common.Table.Laws.{find-insert}
use mathlib.Core.Path.{subst}
use ndy_hub.Actions.Registry.{RiskTier, low, is_low, Entry, find_action_definition}
use ndy_hub.Actions.Engine.{
  Input, rejected, pending_approval, executed, Reason, unknown_action, not_enabled, not_a_member,
  invalid_params, no_consent, failed, LogEntry, Approval, Store, Domain, ActionResult, was_executed,
  Failure, has_key, of_log, to_result, new_log, new_approval, consent_of, is_enabled, is_member,
  reject, outcome, answer, call, execute, ask, run_or_ask, authorize, submit,
}
use ndy_hub.Actions.Engine.Gate.{consent-cases}
use ndy_hub.Actions.Engine.Growth.{Grows, Submission, submit_all, submit_all-Grows}

-- The stored answer keeps the id of the log entry and of the approval, and not the action's result.
abbrev pub forget : ActionResult → ActionResult
forget (was_executed id result) = was_executed id none
forget r = r

-- What `to_result` makes of an entry is `r`: for its approval, or whatever its approval is.
abbrev pub Answers : LogEntry → List Approval → ActionResult → Type 0
Answers l approvals r =
    ((a : Approval) × (find (of_log l.id) approvals ≡ some a) × (to_result l (some a) ≡ r))
    ⊎ ((a : Option Approval) → to_result l a ≡ r)

Answers-to_result :
    (l : LogEntry) (approvals : List Approval) (r : ActionResult)
    → Answers l approvals r
    → to_result l (find (of_log l.id) approvals) ≡ r
Answers-to_result l approvals r (inl (a, found, e)) = ap (to_result l) found ∙ e
Answers-to_result l approvals r (inr e) = e (find (of_log l.id) approvals)

new_log-found :
    (l : LogEntry) (logs : List LogEntry)
    → find (has_key l.input.idempotency_key) logs ≡ none
    → find (has_key l.input.idempotency_key) (insert l logs) ≡ some l
new_log-found l logs new = ground (
  arith,
  new,
  ==_iff l.input.idempotency_key l.input.idempotency_key,
  find-insert (has_key l.input.idempotency_key) l logs,
)

outcome-Recorded :
    (id : Key) (i : Input) (tier : RiskTier) (logs : List LogEntry) (approvals : List Approval)
    → find (has_key i.idempotency_key) logs ≡ none
    → (r : Result Key (Option Key))
    → (l : LogEntry) × (find
          (has_key i.idempotency_key)
          (insert (outcome r (new_log id i executed tier none none)) logs)
        ≡ some l)
      × Answers l approvals (forget (answer id r))
outcome-Recorded id i tier logs approvals new (ok none) =
    let l = new_log id i executed tier none none in (l, new_log-found l logs new, inr (λ a. refl))
outcome-Recorded id i tier logs approvals new (ok (some summary)) =
    let l = new_log id i executed tier none (some summary) in
    (l, new_log-found l logs new, inr (λ a. refl))
outcome-Recorded id i tier logs approvals new (err message) =
    let l = new_log id i rejected tier (some (failed message)) none in
    (l, new_log-found l logs new, inr (λ a. refl))

module _ {D : Type 0} (domain : Domain D) where
  -- The answer can be read off the table again.
  abbrev pub Recorded : Input → Result Failure ActionResult × Store D → Type 0
  Recorded i (err e, t) = ⊥
  Recorded i (ok r, t) =
      (l : LogEntry) × (find (has_key i.idempotency_key) t.logs ≡ some l)
      × Answers l t.approvals (forget r)

  new-Recorded :
      (id : Key) (i : Input) (tier : RiskTier) (why : Reason) (s : Store D)
      → find (has_key i.idempotency_key) s.logs ≡ none
      → Recorded i (reject id i tier why s)
  new-Recorded id i tier why s new =
      let l = new_log id i rejected tier (some why) none in
      (l, new_log-found l s.logs new, inr (λ a. refl))

  ask-Recorded :
      (id approval_id : Key) (i : Input) (e : Entry) (now : Time) (s : Store D)
      → find (has_key i.idempotency_key) s.logs ≡ none
      → find (of_log id) s.approvals ≡ none
      → Recorded i (ask domain id approval_id i e now s)
  ask-Recorded id approval_id i e now s new free =
      let l = new_log id i pending_approval e.risk_tier none none in
      let a = new_approval approval_id id e.risk_tier now in
      (
        l,
        new_log-found l s.logs new,
        inl (a, ground (arith, free, ==_iff id id, find-insert (of_log id) a s.approvals), refl),
      )

  execute-Recorded :
      (id : Key) (i : Input) (e : Entry) (s : Store D)
      → find (has_key i.idempotency_key) s.logs ≡ none
      → Recorded i (execute domain id i e s)
  unfolding execute
  execute-Recorded id i e s new =
      outcome-Recorded id i e.risk_tier s.logs s.approvals new
        (call domain e i.requested_by_user_id i.params s)

  run_or_ask-Recorded :
      (id approval_id : Key) (i : Input) (e : Entry) (now : Time) (s : Store D)
      → find (has_key i.idempotency_key) s.logs ≡ none
      → find (of_log id) s.approvals ≡ none
      → Recorded i (run_or_ask domain id approval_id i e now s)
  unfolding run_or_ask
  run_or_ask-Recorded id approval_id i e now s new free =
      elim (Bool-cases (domain.is_valid e i.params)) [
        | inr bad ↦ rw bad (new-Recorded id i e.risk_tier invalid_params s new)
        | inl good ↦ elim (Bool-cases (is_low e.risk_tier)) [
          | inr risky ↦ rw (good, risky) (ask-Recorded id approval_id i e now s new free)
          | inl harmless ↦ rw (good, harmless) (execute-Recorded id i e s new)
        ]
      ]

  authorize-Recorded :
      (id approval_id : Key) (i : Input) (e : Entry) (now : Time) (s : Store D)
      → find (has_key i.idempotency_key) s.logs ≡ none
      → find (of_log id) s.approvals ≡ none
      → Recorded i (authorize domain id approval_id i e now s)
  unfolding authorize
  authorize-Recorded id approval_id i e now s new free =
      elim (Bool-cases (is_enabled i.action_key s.switches)) [
        | inr off ↦ rw off (new-Recorded id i e.risk_tier not_enabled s new)
        | inl on ↦ elim (Bool-cases (is_member i s.memberships)) [
          | inr outside ↦ rw (on, outside) (new-Recorded id i e.risk_tier not_a_member s new)
          | inl inside ↦ elim (consent-cases (consent_of i e s.consent)) [
            | inr (why, refusal) ↦
                rw (on, inside, refusal) (new-Recorded id i e.risk_tier (no_consent why) s new)
            | inl fine ↦
                rw (on, inside, fine) (run_or_ask-Recorded id approval_id i e now s new free)
          ]
        ]
      ]

  submit-Recorded :
      (id approval_id : Key) (i : Input) (now : Time) (s : Store D)
      → find (has_key i.idempotency_key) s.logs ≡ none
      → find (of_log id) s.approvals ≡ none
      → Recorded i (submit domain id approval_id i now s)
  unfolding submit
  submit-Recorded id approval_id i now s new free =
      elim (Option-cases (find_action_definition i.action_key)) [
        | inl unknown ↦
            subst (Recorded i) {x = reject {D = D} id i low unknown_action s}
              (ground (arith, new, unknown)) (new-Recorded id i low unknown_action s new)
        | inr (e, known) ↦
            subst (Recorded i) (ground (arith, new, known))
              (authorize-Recorded id approval_id i e now s new free)
      ]

  -- More submissions leave the answer where it is.
  Recorded-grown :
      (i : Input) (p : Result Failure ActionResult × Store D) (t : Store D)
      → Grows p.1 t
      → Recorded i p
      → Recorded i (p.0, t)
  Recorded-grown i (err e, s) t grows recorded = recorded
  Recorded-grown i (ok r, s) t grows (l, found, inl (a, asked, e)) =
      (l, grows.logs i.idempotency_key l found, inl (a, grows.approvals l.id a asked, e))
  Recorded-grown i (ok r, s) t grows (l, found, inr e) =
      (l, grows.logs i.idempotency_key l found, inr e)

  replay-Recorded :
      (id approval_id : Key) (i : Input) (now : Time) (p : Result Failure ActionResult × Store D)
      → Recorded i p
      → (r : ActionResult) × (p.0 ≡ ok r)
        × (submit domain id approval_id i now p.1 ≡ (ok (forget r), p.1))
  unfolding submit
  replay-Recorded id approval_id i now (ok r, t) (l, found, answers) =
      (r, refl, ground (arith, found, Answers-to_result l t.approvals (forget r) answers))
  replay-Recorded id approval_id i now (err e, t) recorded = absurd recorded

  -- A request with a new idempotency key is answered. Sent again at any time, after any other
  -- submissions, with no resolution in between, it gets the same answer, without the action's
  -- result, and changes nothing. The id of the first entry belongs to no approval yet.
  pub submit_twice :
      (id approval_id id' approval_id' : Key) (i : Input) (now later : Time) (s : Store D)
      (between : List Submission)
      → find (has_key i.idempotency_key) s.logs ≡ none
      → find (of_log id) s.approvals ≡ none
      → let first = submit domain id approval_id i now s in
        let t = submit_all domain between first.1 in
        (r : ActionResult) × (first.0 ≡ ok r)
        × (submit domain id' approval_id' i later t ≡ (ok (forget r), t))
  submit_twice id approval_id id' approval_id' i now later s between new free =
      let first = submit domain id approval_id i now s in
      let t = submit_all domain between first.1 in
      replay-Recorded id' approval_id' i later (first.0, t)
        (Recorded-grown i first t (submit_all-Grows domain between first.1)
          (submit-Recorded id approval_id i now s new free))
