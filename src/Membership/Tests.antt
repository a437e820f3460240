-- ===== src/Membership/Tests.antt =====
-- The theorems on memberships at concrete inputs.
use ndy_hub.Common.{false, none, some, List, [], ◌∷◌, ◌≡◌, arith}
use ndy_hub.Common.Handler.{ok}
use ndy_hub.Common.Table.{count}
use ndy_hub.Membership.{
  rise, flow, monthly, annual, Store, Session, checkout_completed, Event, process,
}
use ndy_hub.Membership.OneActive.{
  OneActive, Call, subscribes, cancels, delivers, run_all, one_active,
}
use ndy_hub.Membership.Webhook.{deliver_twice}

abbrev store : Store
store = record { memberships = []; processed_events = [] }

abbrev session : Session
session = record {
  user_id = some 1;
  tier = some flow;
  billing_cycle = some annual;
  subscription = some 70;
  customer = some 80;
}

abbrev bought : Event
bought = record { id = 90; data_object = checkout_completed session }

abbrev calls : List Call
calls =
    subscribes none 5 1 rise monthly 100
    ∷ delivers bought 6 200
    ∷ delivers bought 7 300
    ∷ cancels 1 6 400
    ∷ []

store-OneActive : OneActive store
unfolding count
store-OneActive user = omega arith

one_active_example : OneActive (run_all calls store)
one_active_example = one_active calls store store-OneActive

deliver_twice_example :
    let t = run_all calls (process bought 6 200 store).1 in process bought 7 300 t ≡ (ok false, t)
deliver_twice_example = deliver_twice bought 6 200 store calls 7 300
