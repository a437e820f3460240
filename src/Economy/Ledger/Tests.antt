-- ===== src/Economy/Ledger/Tests.antt =====
-- The theorems on the ledger at concrete inputs.
use ndy_hub.Common.{some}
use ndy_hub.Common.Int.{pos}
use ndy_hub.Economy.Ledger.{Entry}

abbrev first : Entry
first = record {
  id = 1;
  user_id = 5;
  amount = pos 10;
  reason = "welcome";
  source_event_id = some "a";
  created_at = 0;
}
