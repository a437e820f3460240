-- ===== src/Economy/Reward/Amount.antt =====
-- What a verified event adds to the balances.
use ndy_hub.Common.{
  Key, Time, true, false, none, some, ◌==◌, if◌then◌else◌, Bool-cases, Option-cases, ◌≡◌, inl, inr,
  arith,
}
use ndy_hub.Common.Handler.{Result, ok, err}
use ndy_hub.Common.Table.{find, insert}
use ndy_hub.Common.Int.{ℤ, pos, ◌+ℤ◌, int_laws}
use ndy_hub.Economy.Ledger.{Entry, balance, credit_ndybits, is_zero, zero_amount}
use ndy_hub.Economy.Ledger.Balance.{balance-insert}
use ndy_hub.Economy.Ledger
use ndy_hub.Economy.Reward.{
  RewardRule, Store, EventInput, EventResult, credited, FreshIds, LogExtra, has_source, log_event,
  over_limit, credit, reward, handle_verified_event, ledger_key, is_rule,
}
use ndy_hub.Economy.Reward.Idempotency.{denies, rewards, judgement}

-- What an answer adds to the balance of the event's user.
abbrev pub earned : Result Ledger.Failure EventResult → ℤ
earned (ok (credited amount _)) = amount
earned _ = pos 0

+ℤ_zero : (a : ℤ) → a ≡ a +ℤ pos 0
+ℤ_zero a = omega int_laws

ledger-log_event :
    (i : EventInput) (x : LogExtra) (id : Key) (now : Time) (s : Store)
    → (log_event i x id now s).ledger ≡ s.ledger
unfolding log_event
ledger-log_event i x id now s = ground arith

module _ (rule : RewardRule) (i : EventInput) (ids : FreshIds) (now : Time) (s : Store) where
  abbrev entry : Entry
  entry = record {
    id = ids.entry;
    user_id = i.user_id;
    amount = rule.amount;
    reason = rule.label;
    source_event_id = some (ledger_key i);
    created_at = now;
  }

  credit_zero : is_zero rule.amount ≡ true → credit rule i ids now s ≡ (err zero_amount, s)
  unfolding credit credit_ndybits
  credit_zero zero_amt = ground arith

  credit_new :
      is_zero rule.amount ≡ false
      → find (Ledger.has_source (some (ledger_key i))) s.ledger ≡ none
      → credit rule i ids now s ≡ (ok entry, record s { ledger = insert entry s.ledger })
  unfolding credit credit_ndybits
  credit_new nonzero new = ground arith

  -- A rule's credit from an event that has credited nothing.
  reward-balance :
      (reader : Key)
      → find (Ledger.has_source (some (ledger_key i))) s.ledger ≡ none
      → balance reader (reward rule i ids now s).1.ledger
        ≡ balance reader s.ledger
          +ℤ (if i.user_id == reader then earned (reward rule i ids now s).0 else pos 0)
  unfolding reward
  reward-balance reader new = elim (Bool-cases (is_zero rule.amount)) [
    | inl zero_amt ↦ ground (arith, credit_zero zero_amt, +ℤ_zero (balance reader s.ledger))
    | inr nonzero ↦ ground (
      arith,
      credit_new nonzero new,
      ledger-log_event i
          (record { denied = false; deny_reason = none; ledger_entry_id = some ids.entry }) ids.log
          now (record s { ledger = insert entry s.ledger }),
      balance-insert reader entry s.ledger,
    )
  ]

reward-amount :
    (rule : RewardRule) (i : EventInput) (ids : FreshIds) (now : Time) (s : Store) {amount : ℤ}
    {entry_id : Key}
    → (reward rule i ids now s).0 ≡ ok (credited amount entry_id)
    → amount ≡ rule.amount
unfolding reward
reward-amount rule i ids now s e = ground arith

-- An event whose ledger key has no entry yet moves the balance of its own user by the amount that
-- the answer reports, and by nothing where the answer is a denial, `already_processed` or an error;
-- every other balance stays as it was.
pub handle_verified_event-balance :
    (s : Store) (i : EventInput) (ids : FreshIds) (now : Time) (reader : Key)
    → find (Ledger.has_source (some (ledger_key i))) s.ledger ≡ none
    → let (answer, s') = handle_verified_event i ids now s in
      balance reader s'.ledger
      ≡ balance reader s.ledger +ℤ (if i.user_id == reader then earned answer else pos 0)
unfolding handle_verified_event
handle_verified_event-balance s i ids now reader new =
    elim (Option-cases (find (has_source i.source_event_id) s.logs)) [
      | inr (l, seen) ↦ ground (arith, seen, +ℤ_zero (balance reader s.ledger))
      | inl unseen ↦ elim (judgement (find (is_rule i.event_key) s.rules) i ids now s) [
        | denies reason same ↦ ground (
          arith,
          unseen,
          same,
          +ℤ_zero (balance reader s.ledger),
          ledger-log_event i
              (record { denied = true; deny_reason = some reason; ledger_entry_id = none }) ids.log
              now s,
        )
        | rewards r which on room same ↦
            ground (arith, unseen, same, reward-balance r i ids now s reader new)
      ]
    ]

-- The caller never sets the amount: an event is credited only under the registered, enabled rule
-- for its kind that has room under its daily limit, and with that rule's amount.
pub credited_by_rule :
    (s : Store) (i : EventInput) (ids : FreshIds) (now : Time) {amount : ℤ} {entry_id : Key}
    → (handle_verified_event i ids now s).0 ≡ ok (credited amount entry_id)
    → (rule : RewardRule) × (find (is_rule i.event_key) s.rules ≡ some rule)
      × (rule.enabled ≡ true)
      × (over_limit rule i now s ≡ false)
      × (amount ≡ rule.amount)
unfolding handle_verified_event
credited_by_rule s i ids now e = elim (Option-cases (find (has_source i.source_event_id) s.logs)) [
  | inr (l, seen) ↦ absurd (ground (arith, seen))
  | inl unseen ↦ elim (judgement (find (is_rule i.event_key) s.rules) i ids now s) [
    | denies reason same ↦ absurd (ground (arith, unseen, same))
    | rewards r which on room same ↦ (
      r,
      which,
      on,
      room,
      reward-amount r i ids now s (rw (unseen, same, handle_verified_event) at e),
    )
  ]
]
