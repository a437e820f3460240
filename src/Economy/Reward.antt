-- ===== src/Economy/Reward.antt =====
-- RewardEngineService (apps/api/src/ndybits/reward-engine.service.ts): which verified events credit
-- NDYBITS, and how much. A handler is one run with no other request in between.
pub mod Idempotency
pub mod Velocity
pub mod Amount
mod Tests
use ndy_hub.Common.{
  ℕ, Key, Time, Bool, true, false, not, ◌&&◌, Option, none, some, List, leb, ◌==◌, if◌then◌else◌,
  is_some, ◌+◌, ◌*◌, String,
}
use ndy_hub.Common.Handler.{ok, Handler, pure, write, ◌>>=◌, ◌>>◌}
use ndy_hub.Common.Table.{find, count, insert}
use Prim.Native.String.{◌++◌ as str_append}
use text.Mathlib.Text.{◌==◌ as str_eq}
use ndy_hub.Common.Int.{ℤ}
use ndy_hub.Economy.Ledger.{Entry, credit_ndybits}
use ndy_hub.Economy.Ledger

-- The texts of the two refusals of a rule and of the daily limit.
pub data DenyReason : Type 0 where
  not_enabled no_rule daily_limit : DenyReason

pub record EventLog : Type 0 where
  pub id : Key
  pub event_key : Key
  pub user_id : Key
  pub reported_by_client_id : Option Key
  pub source_event_id : String
  pub denied : Bool
  pub deny_reason : Option DenyReason
  pub ledger_entry_id : Option Key
  pub created_at : Time

pub record RewardRule : Type 0 where
  pub event_key : Key
  pub label : String
  pub amount : ℤ
  pub max_per_user_per_day : Option ℕ
  pub enabled : Bool

pub record Store : Type 0 where
  pub logs : List EventLog
  pub rules : List RewardRule
  pub ledger : List Entry

-- `VerifiedEventInput`
pub record EventInput : Type 0 where
  pub event_key : Key
  pub user_id : Key
  pub source_event_id : String
  pub reported_by_client_id : Option Key

-- `VerifiedEventResult`
pub data EventResult : Type 0 where
  credited : ℤ → Key → EventResult
  denied : DenyReason → EventResult
  already_processed : Key → EventResult

-- The ids that the database draws for the two rows.
pub record FreshIds : Type 0 where
  pub log : Key
  pub entry : Key

abbrev pub velocity_window_ms : ℕ
velocity_window_ms = 24 * 3_600_000

-- What `logEvent` is told beside the event. The source also passes a risk flag on the daily limit,
-- and `logEvent` writes no column for it.
pub record LogExtra : Type 0 where
  pub denied : Bool
  pub deny_reason : Option DenyReason
  pub ledger_entry_id : Option Key

abbrev pub has_source : String → EventLog → Bool
has_source k l = str_eq l.source_event_id k

abbrev pub is_rule : Key → RewardRule → Bool
is_rule k r = r.event_key == k

-- `where: { userId, eventKey, denied: false, createdAt: { gte: windowStart } }`
abbrev pub is_recent_credit : Key → Key → Time → EventLog → Bool
is_recent_credit user key now l =
    l.user_id == user
    && l.event_key == key
    && not l.denied
    && leb now (l.created_at + velocity_window_ms)

abbrev pub new_log : EventInput → LogExtra → Key → Time → EventLog
new_log i x id now = record {
  id = id;
  event_key = i.event_key;
  user_id = i.user_id;
  reported_by_client_id = i.reported_by_client_id;
  source_event_id = i.source_event_id;
  denied = x.denied;
  deny_reason = x.deny_reason;
  ledger_entry_id = x.ledger_entry_id;
  created_at = now;
}

-- `logEvent`: a second row for a source event is dropped.
pub log_event : EventInput → LogExtra → Key → Time → Store → Store
log_event i x id now s =
    if is_some (find (has_source i.source_event_id) s.logs)
    then s
    else record s { logs = insert (new_log i x id now) s.logs }

abbrev pub deny :
    EventInput → DenyReason → FreshIds → Time → Handler Store Ledger.Failure EventResult
deny i reason ids now = do
  write (
      log_event i (record { denied = true; deny_reason = some reason; ledger_entry_id = none })
        ids.log now)
  pure (denied reason)

-- `rule.maxPerUserPerDay != null` and the count of the last 24 hours has reached it.
pub over_limit : RewardRule → EventInput → Time → Store → Bool
over_limit rule i now s = elim rule.max_per_user_per_day [
  | none ↦ false
  | some limit ↦ leb limit (count (is_recent_credit i.user_id i.event_key now) s.logs)
]

abbrev pub ledger_key : EventInput → String
ledger_key i = str_append "economy-event:" i.source_event_id

-- The call of NdybitsService, on the ledger of the store.
pub credit : RewardRule → EventInput → FreshIds → Time → Handler Store Ledger.Failure Entry
credit rule i ids now s =
    let (r, ledger) =
      credit_ndybits ids.entry i.user_id rule.amount rule.label (some (ledger_key i)) now
        s.ledger in
    (r, record s { ledger = ledger })

pub reward : RewardRule → EventInput → FreshIds → Time → Handler Store Ledger.Failure EventResult
reward rule i ids now = do
  entry ← credit rule i ids now
  write (
      log_event i (record { denied = false; deny_reason = none; ledger_entry_id = some entry.id })
        ids.log now)
  pure (credited rule.amount entry.id)

pub judge :
    Option RewardRule → EventInput → FreshIds → Time → Handler Store Ledger.Failure EventResult
judge none i ids now s = deny i no_rule ids now s
judge (some rule) i ids now s =
    if not rule.enabled
    then deny i not_enabled ids now s
    else if over_limit rule i now s
    then deny i daily_limit ids now s
    else reward rule i ids now s

-- `handleVerifiedEvent`
pub handle_verified_event : EventInput → FreshIds → Time → Handler Store Ledger.Failure EventResult
handle_verified_event i ids now s = elim (find (has_source i.source_event_id) s.logs) [
  | some l ↦ (ok (already_processed l.id), s)
  | none ↦ judge (find (is_rule i.event_key) s.rules) i ids now s
]
