-- ===== src/Economy/Ecosystem/Tests.antt =====
-- The theorems on the event log and its feed at concrete inputs.
use ndy_hub.Common.{none, some, List, [], ◌∷◌, ◌≡◌, refl, arith}
use ndy_hub.Common.Table.{select}
use ndy_hub.Economy.Ecosystem.{EcosystemEvent, ReportInput, Store, new_event}
use ndy_hub.Economy.Ecosystem.Feed.{follow, follow-all}

abbrev input : ReportInput
input = record {
  event_type = 3;
  user_id = 1;
  source_event_id = "quest-1";
  reported_by_client_id = some 8;
  payload = none;
}

abbrev store : Store
store = record { events = []; rewards = record { logs = []; rules = []; ledger = [] } }

-- Another type of event stands between two of the type 3.
abbrev log : List EcosystemEvent
log =
    new_event input 1 100
    ∷ new_event (record input { event_type = 4 }) 2 100
    ∷ new_event input 3 200
    ∷ []

follow-all_example : follow 5 (some 1) (some 3) log (some 1) ≡ some (new_event input 3 200 ∷ [])
unfolding select
follow-all_example =
    follow-all 5 (some 1) (some 3) log
      (new_event (record input { event_type = 4 }) 2 100 ∷ new_event input 3 200 ∷ []) (some 1)
      (((λ e. omega arith), ((λ e. omega arith), tt)), (((λ e. omega arith), tt), (tt, tt)))
      (omega arith) ([], new_event input 1 100, refl, refl, refl) (omega arith)
