-- ===== src/Economy/Ecosystem/Reports.antt =====
-- A report is logged and rewarded once.
use ndy_hub.Common.{Key, Time, true, List, Option-cases, ◌≡◌, inl, inr, arith}
use ndy_hub.Common.Handler.{ok}
use ndy_hub.Common.Table.{find}
use ndy_hub.Common.Table.Laws.{find-insert}
use text.Mathlib.TextPositions.{eq_refl}
use ndy_hub.Economy.Reward.{FreshIds}
use ndy_hub.Economy.Ecosystem.{
  EcosystemEvent, ReportInput, Store, is_registered_event_type, has_source, new_event, forward,
  report,
}

-- A retried report is answered with the first event and changes nothing, so it forwards nothing to
-- the Reward Engine either: after a report that succeeded, every report of a registered type with
-- the same source event id returns the same event and leaves the store as it is.
pub report_twice :
    (catalog : List Key) (s : Store) (i i' : ReportInput) (id id' : Key) (ids ids' : FreshIds)
    (now later : Time) {e : EcosystemEvent}
    → (report catalog i id ids now s).0 ≡ ok e
    → is_registered_event_type catalog i'.event_type ≡ true
    → i'.source_event_id ≡ i.source_event_id
    → let s' = (report catalog i id ids now s).1 in report catalog i' id' ids' later s' ≡ (ok e, s')
unfolding report forward
report_twice catalog s i i' id id' ids ids' now later {e} done known same =
    elim (Option-cases (find (has_source i.source_event_id) s.events)) [
      | inr (first, seen) ↦ rw same (ground (arith, seen, known))
      | inl new ↦ rw same (
          ground (
            arith,
            new,
            known,
            source_new,
            find-insert (has_source i.source_event_id) (new_event i id now) s.events,
          ))
    ]
  where
    source_new : has_source i.source_event_id (new_event i id now) ≡ true
    source_new = eq_refl i.source_event_id
