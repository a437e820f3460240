-- ===== src/Economy/Ecosystem.antt =====
-- EcosystemEventService (apps/api/src/ecosystem-event/ecosystem-event.service.ts): the event log of
-- the ecosystem and its paginated feed. The catalog of event types (event-catalog.ts) is the
-- argument `catalog`, since texts that are only compared stand as numbers here. The table is
-- listed in the order of the feed, by creation and then id, in which new rows come last.
pub mod Reports
pub mod Feed
mod Tests
use ndy_hub.Common.{
  ℕ, Key, Time, Bool, true, not, Option, none, some, List, [], ◌∷◌, ◌==◌, if◌then◌else◌, is_some,
  String, min,
}
use ndy_hub.Common.Handler.{ok, Handler, throw_if, ◌>>=◌, ◌>>◌}
use ndy_hub.Common.Table.{find, select, insert}
use Prim.Native.String.{◌++◌ as str_append}
use text.Mathlib.Text.{◌==◌ as str_eq}
use ndy_hub.Common.Lists.{length, take, drop, get_last?}
use ndy_hub.Economy.Reward.{EventInput, FreshIds, handle_verified_event}
use ndy_hub.Economy.Reward

pub record EcosystemEvent : Type 0 where
  pub id : Key
  pub event_type : Key
  pub user_id : Key
  pub reported_by_client_id : Option Key
  pub payload : Option Key
  pub source_event_id : String
  pub created_at : Time

-- `ReportEcosystemEventInput`
pub record ReportInput : Type 0 where
  pub event_type : Key
  pub user_id : Key
  pub source_event_id : String
  pub reported_by_client_id : Option Key
  pub payload : Option Key

pub record Store : Type 0 where
  pub events : List EcosystemEvent
  pub rewards : Reward.Store

pub data Failure : Type 0 where
  unknown_event_type : Failure

-- `isRegisteredEventType`
pub is_registered_event_type : List Key → Key → Bool
is_registered_event_type catalog type = is_some (find (λ t. t == type) catalog)

abbrev pub has_source : String → EcosystemEvent → Bool
has_source k e = str_eq e.source_event_id k

abbrev pub new_event : ReportInput → Key → Time → EcosystemEvent
new_event i id now = record {
  id = id;
  event_type = i.event_type;
  user_id = i.user_id;
  reported_by_client_id = i.reported_by_client_id;
  payload = i.payload;
  source_event_id = i.source_event_id;
  created_at = now;
}

-- The event that is forwarded to the Reward Engine.
abbrev pub forwarded : ReportInput → EventInput
forwarded i = record {
  event_key = i.event_type;
  user_id = i.user_id;
  source_event_id = str_append "ecosystem-event:" i.source_event_id;
  reported_by_client_id = i.reported_by_client_id;
}

-- The forward is best effort: what it throws is caught, what it wrote stays.
pub forward : ReportInput → FreshIds → Time → Store → Store
forward i ids now s = record s {
  rewards = (handle_verified_event (forwarded i) ids now s.rewards).1;
}

pub record_event : ReportInput → Key → FreshIds → Time → Handler Store Failure EcosystemEvent
record_event i id ids now s = elim (find (has_source i.source_event_id) s.events) [
  | some first ↦ (ok first, s)
  | none ↦ (
    ok (new_event i id now),
    forward i ids now (record s { events = insert (new_event i id now) s.events }),
  )
]

pub report : List Key → ReportInput → Key → FreshIds → Time → Handler Store Failure EcosystemEvent
unfolding record_event
report catalog i id ids now = do
  throw_if (not (is_registered_event_type catalog i.event_type)) unknown_event_type
  record_event i id ids now

-- The pages of the feed. `crashed` is the TypeError of reading `.id` off the last of no events.
pub data Page : Type 0 where
  page : List EcosystemEvent → Option Key → Page
  crashed : Page

-- `cursor: { id }`: the rows from the one with that id on, and none if there is no such row. The
-- row is looked up in the whole table, whether or not the `where` of the query lets it through.
pub from_cursor : Option Key → List EcosystemEvent → List EcosystemEvent
from_cursor none rows = rows
from_cursor (some c) [] = []
from_cursor (some c) (r ∷ rows) =
    let rest = from_cursor (some c) rows in if r.id == c then r ∷ rows else rest

-- `skip: 1` with a cursor, of what the `where` has let through.
abbrev pub skipped : Option Key → ℕ
skipped none = 0
skipped (some c) = 1

abbrev pub of_type : Option Key → EcosystemEvent → Bool
of_type none e = true
of_type (some t) e = e.event_type == t

-- `Math.min(params.take ?? 100, 500)`
abbrev pub page_size : Option ℕ → ℕ
page_size none = 100
page_size (some n) = min n 500

-- `events.length === take ? events[events.length - 1].id : null`
pub page_of : ℕ → List EcosystemEvent → Page
page_of size events =
    if length events == size
    then elim (get_last? events) [ some e ↦ page events (some e.id) | none ↦ crashed ]
    else page events none

pub list_since : Option Key → Option ℕ → Option Key → List EcosystemEvent → Page
unfolding page_of
list_since cursor size type events = page_of (page_size size) (
    take (page_size size)
      (drop (skipped cursor) (select (of_type type) (from_cursor cursor events))))
