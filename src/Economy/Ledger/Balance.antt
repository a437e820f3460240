-- ===== src/Economy/Ledger/Balance.antt =====
-- What a credit does to the balances.
use ndy_hub.Common.{
  Key, Time, true, false, Option, none, some, List, [], ◌∷◌, ◌==◌, if◌then◌else◌, Option-cases, ◌≡◌,
  inl, inr, arith, String,
}
use ndy_hub.Common.Handler.{ok}
use ndy_hub.Common.Table.{find, insert}
use ndy_hub.Common.Table.Laws.{find-insert}
use ndy_hub.Common.Int.{ℤ, pos, ◌+ℤ◌, int_laws}
use text.Mathlib.TextPositions.{eq_refl}
use ndy_hub.Economy.Ledger.{Entry, is_zero, has_source, amount_for, balance, credit_ndybits}

pub balance-insert :
    (user : Key) (e : Entry) (entries : List Entry)
    → balance user (insert e entries) ≡ balance user entries +ℤ amount_for user e
unfolding balance insert
balance-insert user e [] = omega int_laws
balance-insert user e (x ∷ entries) = rw (balance-insert user e entries) (omega int_laws)

-- A credit of an amount other than 0, from a source event that has credited nothing yet or with no
-- source event, moves the balance of its own user by its amount and no other balance.
pub credit_ndybits-balance :
    (entries : List Entry) (id user : Key) (amount : ℤ) (reason : String) (source : Option String)
    (now : Time) (reader : Key)
    → is_zero amount ≡ false
    → find (has_source source) entries ≡ none
    → balance reader (credit_ndybits id user amount reason source now entries).1
      ≡ balance reader entries +ℤ (if user == reader then amount else pos 0)
unfolding credit_ndybits
credit_ndybits-balance entries id user amount reason source now reader nonzero new = ground (
  arith,
  balance-insert reader
      (record {
        id = id;
        user_id = user;
        amount = amount;
        reason = reason;
        source_event_id = source;
        created_at = now;
      })
      entries,
)

has_source_new :
    (id user : Key) (amount : ℤ) (reason source : String) (now : Time)
    → has_source (some source) (record {
      id = id;
      user_id = user;
      amount = amount;
      reason = reason;
      source_event_id = some source;
      created_at = now;
    })
      ≡ true
has_source_new id user amount reason source now = eq_refl source

-- A credit is made once for each source event: after a credit that named one, any later credit of
-- an amount other than 0 that names it too returns the same entry and leaves the ledger alone,
-- whatever its user and amount.
pub credit_ndybits_twice :
    (entries : List Entry) (id user : Key) (amount : ℤ) (reason : String) (source : String)
    (now : Time) {e : Entry} (id' user' : Key) (amount' : ℤ) (reason' : String) (later : Time)
    → (credit_ndybits id user amount reason (some source) now entries).0 ≡ ok e
    → is_zero amount' ≡ false
    → let entries' = (credit_ndybits id user amount reason (some source) now entries).1 in
      credit_ndybits id' user' amount' reason' (some source) later entries' ≡ (ok e, entries')
unfolding credit_ndybits
credit_ndybits_twice entries id user amount reason source now {e} id' user' amount' reason' later
      done nonzero =
    elim (Option-cases (find (has_source (some source)) entries)) [
      | inr (f, found) ↦ ground (arith, found)
      | inl new ↦ ground (
        arith,
        new,
        has_source_new id user amount reason source now,
        find-insert (has_source (some source))
            (record {
              id = id;
              user_id = user;
              amount = amount;
              reason = reason;
              source_event_id = some source;
              created_at = now;
            })
            entries,
      )
    ]
