-- ===== src/Economy/Reward/Idempotency.antt =====
-- An event is judged once.
use ndy_hub.Common.{
  Key, Time, true, false, Option, none, some, Bool-cases, Option-cases, ◌≡◌, refl, inl, inr, arith,
}
use ndy_hub.Common.Handler.{Result-cases, ok}
use ndy_hub.Common.Table.{find}
use ndy_hub.Common.Table.Laws.{find-insert}
use text.Mathlib.TextPositions.{eq_refl}
use ndy_hub.Economy.Reward.{
  EventLog, RewardRule, Store, EventInput, EventResult, already_processed, FreshIds, LogExtra,
  DenyReason, has_source, new_log, log_event, deny, over_limit, credit, reward, judge,
  handle_verified_event, is_rule, no_rule, not_enabled, daily_limit,
}

-- A row for the event's source is there after `logEvent`.
logged :
    (i : EventInput) (x : LogExtra) (id : Key) (now : Time) (s : Store)
    → (l : EventLog) × (find (has_source i.source_event_id) (log_event i x id now s).logs ≡ some l)
unfolding log_event
logged i x id now s = elim (Option-cases (find (has_source i.source_event_id) s.logs)) [
  | inr (l, found) ↦ (l, ground (arith, found))
  | inl new ↦ (
    new_log i x id now,
    ground (
      arith,
      new,
      source_new,
      find-insert (has_source i.source_event_id) (new_log i x id now) s.logs,
    ),
  )
]
  where
    source_new : has_source i.source_event_id (new_log i x id now) ≡ true
    source_new = eq_refl i.source_event_id

-- A judgement is a denial that is logged, or a reward by an enabled rule with room under its limit.
pub data Judgement (o : Option RewardRule) (i : EventInput) (ids : FreshIds) (now : Time)
    (s : Store) : Type 0 where
  denies :
      (reason : DenyReason)
      → judge o i ids now s ≡ deny i reason ids now s
      → Judgement o i ids now s
  rewards :
      (rule : RewardRule)
      → o ≡ some rule
      → rule.enabled ≡ true
      → over_limit rule i now s ≡ false
      → judge o i ids now s ≡ reward rule i ids now s
      → Judgement o i ids now s

pub judgement :
    (o : Option RewardRule) (i : EventInput) (ids : FreshIds) (now : Time) (s : Store)
    → Judgement o i ids now s
unfolding judge
judgement none i ids now s = denies no_rule refl
judgement (some rule) i ids now s = elim (Bool-cases rule.enabled) [
  | inr off ↦ denies not_enabled (ground arith)
  | inl on ↦ elim (Bool-cases (over_limit rule i now s)) [
    | inl full ↦ denies daily_limit (ground arith)
    | inr room ↦ rewards rule refl on room (ground arith)
  ]
]

logs-reward :
    (rule : RewardRule) (i : EventInput) (ids : FreshIds) (now : Time) (s : Store) {r : EventResult}
    → (reward rule i ids now s).0 ≡ ok r
    → (l : EventLog) × (find (has_source i.source_event_id) (reward rule i ids now s).1.logs
        ≡ some l)
unfolding reward
logs-reward rule i ids now s e = elim (Result-cases (credit rule i ids now s).0) [
  | inl (entry, done) ↦
      let x : LogExtra = record {
        denied = false;
        deny_reason = none;
        ledger_entry_id = some entry.id;
      } in
      let (l, found) = logged i x ids.log now (credit rule i ids now s).1 in
      (l, ground (arith, done, found))
  | inr (x, failed) ↦ absurd (ground arith)
]

judged :
    (rule : Option RewardRule) (i : EventInput) (ids : FreshIds) (now : Time) (s : Store)
    {r : EventResult}
    → (judge rule i ids now s).0 ≡ ok r
    → (l : EventLog) × (find (has_source i.source_event_id) (judge rule i ids now s).1.logs
        ≡ some l)
judged o i ids now s e = elim (judgement o i ids now s) [
  | denies reason same ↦ rw same (logged i _ ids.log now s)
  | rewards rule _ _ _ same ↦ rw same (logs-reward rule i ids now s (rw same at e))
]

-- An event is judged once: after `handleVerifiedEvent` has answered an event, any later report with
-- the same source event id is answered `already_processed` and changes nothing, whatever event,
-- user and client it names.
pub handle_verified_event_twice :
    (s : Store) (i i' : EventInput) (ids ids' : FreshIds) (now later : Time) {r : EventResult}
    → (handle_verified_event i ids now s).0 ≡ ok r
    → i'.source_event_id ≡ i.source_event_id
    → let s' = (handle_verified_event i ids now s).1 in
      (id : Key) × (handle_verified_event i' ids' later s' ≡ (ok (already_processed id), s'))
unfolding handle_verified_event
handle_verified_event_twice s i i' ids ids' now later e same =
    elim (Option-cases (find (has_source i.source_event_id) s.logs)) [
      | inr (l, found) ↦ (l.id, rw same (ground (arith, found)))
      | inl new ↦
          let (l, found) =
            judged (find (is_rule i.event_key) s.rules) i ids now s
              (rw (new, handle_verified_event) at e) in
          (l.id, rw same (ground (arith, new, found)))
    ]
