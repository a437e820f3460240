-- ===== src/Economy/Ledger.antt =====
-- NdybitsService (apps/api/src/ndybits/ndybits.service.ts): a ledger whose balance is summed on
-- every read. Ids and the time of a row are drawn by the database and stand as arguments.
pub mod Balance
mod Tests
use ndy_hub.Common.{
  Key, Time, Bool, false, Option, none, some, List, [], ◌∷◌, ◌==◌, if◌then◌else◌, String,
}
use ndy_hub.Common.Handler.{Handler, pure, throw_if, query, write, ◌>>=◌, ◌>>◌}
use ndy_hub.Common.Table.{find, insert}
use ndy_hub.Common.Int.{ℤ, pos, ◌+ℤ◌}
use text.Mathlib.Text.{◌==◌ as str_eq}

pub record Entry : Type 0 where
  pub id : Key
  pub user_id : Key
  pub amount : ℤ
  pub reason : String
  pub source_event_id : Option String
  pub created_at : Time

pub data Failure : Type 0 where
  zero_amount : Failure

abbrev pub is_zero : ℤ → Bool
is_zero (pos n) = n == 0
is_zero _ = false

-- The unique column `sourceEventId`; rows that leave it null do not collide.
abbrev pub has_source : Option String → Entry → Bool
has_source none e = false
has_source (some k) e = elim e.source_event_id [ some j ↦ str_eq j k | none ↦ false ]

abbrev pub amount_for : Key → Entry → ℤ
amount_for user e = if e.user_id == user then e.amount else pos 0

-- `aggregate({ where: { userId }, _sum: { amount: true } })`, with 0 for no rows
unfoldable pub balance : Key → List Entry → ℤ
balance user [] = pos 0
balance user (e ∷ entries) = amount_for user e +ℤ balance user entries

-- `creditNdybits`: a second credit from the same source event returns the first entry.
unfoldable pub credit_ndybits :
    Key → Key → ℤ → String → Option String → Time → Handler (List Entry) Failure Entry
credit_ndybits id user amount reason source_event_id now = do
  throw_if (is_zero amount) zero_amount
  existing ← query (find (has_source source_event_id))
  let e : Entry = record {
    id = id;
    user_id = user;
    amount = amount;
    reason = reason;
    source_event_id = source_event_id;
    created_at = now;
  }
  elim existing [ some first ↦ pure first | none ↦ (do write (insert e); pure e) ]
