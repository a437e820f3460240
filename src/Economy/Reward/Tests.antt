-- ===== src/Economy/Reward/Tests.antt =====
-- The theorems on rewards at concrete inputs.
use ndy_hub.Common.{true, none, some, List, [], ◌∷◌, ◌≤◌, ◌≡◌, refl, arith}
use ndy_hub.Common.Table.{find, count}
use ndy_hub.Common.Int.{pos, ◌+ℤ◌}
use ndy_hub.Economy.Ledger.{balance, credit_ndybits}
use ndy_hub.Economy.Reward.{
  RewardRule, Store, EventInput, FreshIds, over_limit, log_event, credit, reward, judge,
  handle_verified_event,
}
use ndy_hub.Economy.Reward.Velocity.{Report, handle_all, recent_credits, handle_all_velocity}
use ndy_hub.Economy.Reward.Amount.{handle_verified_event-balance}

abbrev daily_login : RewardRule
daily_login = record {
  event_key = 3;
  label = "Daily login";
  amount = pos 5;
  max_per_user_per_day = some 1;
  enabled = true;
}

abbrev store : Store
store = record { logs = []; rules = daily_login ∷ []; ledger = [] }

abbrev login : EventInput
login = record {
  event_key = 3;
  user_id = 1;
  source_event_id = "login-1";
  reported_by_client_id = none;
}

abbrev ids : FreshIds
ids = record { log = 10; entry = 20 }

abbrev reports : List Report
reports =
    record { input = login; ids = ids; at = 100 }
    ∷ record {
      input = record login { source_event_id = "login-2" };
      ids = record { log = 11; entry = 21 };
      at = 200;
    }
    ∷ []

handle_all_velocity_example : recent_credits 1 3 300 (handle_all reports store) ≤ 1
unfolding find count
handle_all_velocity_example =
    handle_all_velocity reports store 0 300 1 3 daily_login 1
      (omega arith, (omega arith, omega arith)) refl refl (omega arith)

handle_verified_event-balance_example :
    let (answer, s') = handle_verified_event login ids 100 store in
    balance 1 s'.ledger ≡ balance 1 store.ledger +ℤ pos 5
unfolding handle_verified_event judge over_limit reward credit find count log_event credit_ndybits
handle_verified_event-balance_example = handle_verified_event-balance store login ids 100 1 refl
