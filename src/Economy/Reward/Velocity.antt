-- ===== src/Economy/Reward/Velocity.antt =====
-- How much an event may earn: the amount is the rule's, and a rule's daily limit holds.
use ndy_hub.Common.{
  ℕ, Key, Time, true, false, ◌&&◌, none, some, List, [], ◌∷◌, ◌==◌, if◌then◌else◌, Bool-cases,
  Option-cases, ◌+◌, ◌≤◌, ◌<◌, ◌≡◌, refl, ◌⊎◌, inl, inr, arith,
}
use ndy_hub.Common.Handler.{Result-cases}
use ndy_hub.Common.Table.{find, count}
use ndy_hub.Common.Table.Laws.{count-insert, count_mono}
use mathlib.Core.Path.{subst₂}
use ndy_hub.Economy.Reward.{
  RewardRule, Store, EventInput, FreshIds, LogExtra, DenyReason, has_source, new_log, log_event,
  deny, over_limit, credit, reward, handle_verified_event, is_rule, is_recent_credit,
}
use ndy_hub.Economy.Reward.Idempotency.{denies, rewards, judgement}

-- The credits of a user for one kind of event within the last 24 hours.
abbrev pub recent_credits : Key → Key → Time → Store → ℕ
recent_credits user key now s = count (is_recent_credit user key now) s.logs

log_event-recent :
    (i : EventInput) (x : LogExtra) (id : Key) (now : Time) (s : Store) (user key : Key)
    → recent_credits user key now (log_event i x id now s)
      ≤ recent_credits user key now s
        + (if is_recent_credit user key now (new_log i x id now) then 1 else 0)
unfolding log_event
log_event-recent i x id now s user key =
    ground (arith, count-insert (is_recent_credit user key now) (new_log i x id now) s.logs)

logs-credit :
    (rule : RewardRule) (i : EventInput) (ids : FreshIds) (now : Time) (s : Store)
    → ((credit rule i ids now s).1.logs ≡ s.logs) × ((credit rule i ids now s).1.rules ≡ s.rules)
unfolding credit
logs-credit rule i ids now s = (refl, refl)

-- A denial is not counted, and a reward adds at most one.
deny-recent :
    (i : EventInput) (reason : DenyReason) (ids : FreshIds) (now : Time) (s : Store)
    (user key : Key)
    → recent_credits user key now (deny i reason ids now s).1 ≤ recent_credits user key now s
deny-recent i reason ids now s user key = ground (
  arith,
  log_event-recent i (record { denied = true; deny_reason = some reason; ledger_entry_id = none })
      ids.log now s user key,
)

reward-recent :
    (rule : RewardRule) (i : EventInput) (ids : FreshIds) (now : Time) (s : Store) (user key : Key)
    → recent_credits user key now (reward rule i ids now s).1
      ≤ recent_credits user key now s + (if i.user_id == user && i.event_key == key then 1 else 0)
unfolding reward
reward-recent rule i ids now s user key = elim (Result-cases (credit rule i ids now s).0) [
  | inl (entry, done) ↦ ground (
    arith,
    done,
    logs-credit rule i ids now s,
    log_event-recent i
        (record { denied = false; deny_reason = none; ledger_entry_id = some entry.id }) ids.log now
        (credit rule i ids now s).1 user key,
  )
  | inr (x, failed) ↦ ground (arith, failed, logs-credit rule i ids now s)
]

under_limit :
    (rule : RewardRule) (i : EventInput) (now : Time) (s : Store) (limit : ℕ)
    → over_limit rule i now s ≡ false
    → rule.max_per_user_per_day ≡ some limit
    → recent_credits i.user_id i.event_key now s < limit
unfolding over_limit
under_limit rule i now s limit room capped = ground arith

-- A reward of the kind and user in question is made only with room under the limit.
reward_has_room :
    (s : Store) (i : EventInput) (now : Time) (user key : Key) (r rule : RewardRule) (limit : ℕ)
    → find (is_rule i.event_key) s.rules ≡ some r
    → over_limit r i now s ≡ false
    → find (is_rule key) s.rules ≡ some rule
    → rule.max_per_user_per_day ≡ some limit
    → (i.user_id == user && i.event_key == key ≡ false) ⊎ (recent_credits user key now s < limit)
reward_has_room s i now user key r rule limit which room found capped =
    elim (Bool-cases (i.user_id == user && i.event_key == key)) [
      | inr no_match ↦ inl no_match
      | inl match ↦
          let u : i.user_id ≡ user = ground arith in
          let k : i.event_key ≡ key = ground arith in
          let same : rule ≡ r = cc (rw k at which) in
          let below = under_limit r i now s limit room (rw same at capped) in
          inr (subst₂ (λ (v j : Key). recent_credits v j now s < limit) u k below)
    ]

-- The daily limit holds at every moment: if the user has at most `limit` credits of a kind of event
-- in the last 24 hours, and the rule for it allows `limit` a day, then handling any event keeps it so.
pub velocity_limit :
    (s : Store) (i : EventInput) (ids : FreshIds) (now : Time) (user key : Key) (rule : RewardRule)
    (limit : ℕ)
    → find (is_rule key) s.rules ≡ some rule
    → rule.max_per_user_per_day ≡ some limit
    → recent_credits user key now s ≤ limit
    → recent_credits user key now (handle_verified_event i ids now s).1 ≤ limit
unfolding handle_verified_event
velocity_limit s i ids now user key rule limit found capped h =
    elim (Option-cases (find (has_source i.source_event_id) s.logs)) [
      | inr (l, seen) ↦ ground (arith, seen)
      | inl new ↦ elim (judgement (find (is_rule i.event_key) s.rules) i ids now s) [
        | denies reason same ↦ ground (arith, new, same, deny-recent i reason ids now s user key)
        | rewards r which on room same ↦ ground (
          arith,
          new,
          same,
          reward-recent r i ids now s user key,
          reward_has_room s i now user key r rule limit which room found capped,
        )
      ]
    ]

-- As time passes the window only loses credits.
pub recent_credits_mono :
    (s : Store) (user key : Key) (now later : Time)
    → now ≤ later
    → recent_credits user key later s ≤ recent_credits user key now s
recent_credits_mono s user key now later h =
    count_mono (is_recent_credit user key later) (is_recent_credit user key now) s.logs
      (λ r e. ground arith)

-- The events of a history, with the ids drawn and the time at which each is handled.
pub record Report : Type 0 where
  pub input : EventInput
  pub ids : FreshIds
  pub at : Time

-- The reports are handled one after the other; a report that throws leaves what it wrote.
pub handle_all : List Report → Store → Store
handle_all [] s = s
handle_all (r ∷ reports) s = handle_all reports (handle_verified_event r.input r.ids r.at s).1

-- The times of a history, from `now` on, do not go back, and `last` is not before any.
abbrev pub InOrder : Time → List Report → Time → Type 0
InOrder now [] last = now ≤ last
InOrder now (r ∷ reports) last = (now ≤ r.at) × InOrder r.at reports last

rules-log_event :
    (i : EventInput) (x : LogExtra) (id : Key) (now : Time) (s : Store)
    → (log_event i x id now s).rules ≡ s.rules
unfolding log_event
rules-log_event i x id now s = ground arith

rules-reward :
    (rule : RewardRule) (i : EventInput) (ids : FreshIds) (now : Time) (s : Store)
    → (reward rule i ids now s).1.rules ≡ s.rules
unfolding reward
rules-reward rule i ids now s = elim (Result-cases (credit rule i ids now s).0) [
  | inl (entry, done) ↦ ground (
    arith,
    done,
    logs-credit rule i ids now s,
    rules-log_event i
        (record { denied = false; deny_reason = none; ledger_entry_id = some entry.id }) ids.log now
        (credit rule i ids now s).1,
  )
  | inr (x, failed) ↦ ground (arith, failed, logs-credit rule i ids now s)
]

rules-handle :
    (i : EventInput) (ids : FreshIds) (now : Time) (s : Store)
    → (handle_verified_event i ids now s).1.rules ≡ s.rules
unfolding handle_verified_event
rules-handle i ids now s = elim (Option-cases (find (has_source i.source_event_id) s.logs)) [
  | inr (l, seen) ↦ ground (arith, seen)
  | inl new ↦ elim (judgement (find (is_rule i.event_key) s.rules) i ids now s) [
    | denies reason same ↦ ground (
      arith,
      new,
      same,
      rules-log_event i
          (record { denied = true; deny_reason = some reason; ledger_entry_id = none }) ids.log now
          s,
    )
    | rewards r which on room same ↦ ground (arith, new, same, rules-reward r i ids now s)
  ]
]

-- The daily limit of a rule holds over a whole history: from a moment at which the user has at most
-- `limit` credits of the kind in the last 24 hours, any sequence of reports in the order of time,
-- for any users and kinds of event, ends with at most `limit` in the last 24 hours.
pub handle_all_velocity :
    (reports : List Report) (s : Store) (now last : Time) (user key : Key) (rule : RewardRule)
    (limit : ℕ)
    → InOrder now reports last
    → find (is_rule key) s.rules ≡ some rule
    → rule.max_per_user_per_day ≡ some limit
    → recent_credits user key now s ≤ limit
    → recent_credits user key last (handle_all reports s) ≤ limit
unfolding handle_all
handle_all_velocity [] s now last user key rule limit order found capped h =
    omega (arith, recent_credits_mono s user key now last order)
handle_all_velocity (r ∷ reports) s now last user key rule limit order found capped h =
    handle_all_velocity reports (handle_verified_event r.input r.ids r.at s).1 r.at last user key
      rule limit order.1 (rw (rules-handle r.input r.ids r.at s) found) capped
      (velocity_limit s r.input r.ids r.at user key rule limit found capped
        (omega (arith, recent_credits_mono s user key now r.at order.0, h)))
