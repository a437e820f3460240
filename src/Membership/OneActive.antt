-- ===== src/Membership/OneActive.antt =====
-- A user never has two active memberships.
use ndy_hub.Common.{
  Key, Time, Bool, true, false, Option, none, some, List, [], ◌∷◌, ◌==◌, is_some, Bool-cases,
  Option-cases, ==_iff, ◌≤◌, ◌≡◌, refl, sym, ◌⊎◌, inl, inr, arith,
}
use ndy_hub.Common.Handler.{Result, Result-cases, ok, Handler, pure, ◌>>◌}
use ndy_hub.Common.Table.{find, update, count, insert}
use ndy_hub.Common.Table.Laws.{count-insert, count-update_self, count-update_le}
use mathlib.Core.Path.{subst}
use ndy_hub.Membership.{
  Failure, MembershipTier, price_cents, BillingCycle, Membership, Store, is_active_of, cancel_row,
  cancel_active_for_user, new_membership, add_membership, Checkout, subscribe, is_active_row,
  cancel, Session, EventData, has_subscription, replace_membership, checkout_completed,
  subscription_deleted, other_event, Event, handle_checkout_completed, is_subscription,
  handle_subscription_deleted, record_stripe_event_once, apply_event, process,
}

-- No user has more than one active membership.
abbrev pub OneActive : Store → Type 0
OneActive s = (user : Key) → count (is_active_of user) s.memberships ≤ 1

-- Cancelling what `q` tests for makes nothing active.
cancel_rows-OneActive :
    (q : Membership → Bool) (now : Time) (rows : List Membership) (user : Key)
    → count (is_active_of user) rows ≤ 1
    → count (is_active_of user) (update q (cancel_row now) rows) ≤ 1
cancel_rows-OneActive q now rows user h = omega (
  arith,
  count-update_le (is_active_of user) q (cancel_row now) rows (λ r p a. ground (arith, a)),
)

-- What a change of plan leaves active is the new membership.
replace_own :
    (rows : List Membership) (m : Membership) (now : Time) (user : Key)
    → count (is_active_of user) (insert m (update (is_active_of user) (cancel_row now) rows)) ≤ 1
replace_own rows m now user =
    let gone = count-update_self (is_active_of user) (cancel_row now) rows (λ r h. ground arith) in
    ground (
      arith,
      gone,
      count-insert (is_active_of user) m (update (is_active_of user) (cancel_row now) rows),
    )

replace_other :
    (rows : List Membership) (m : Membership) (now : Time) (user : Key)
    → is_active_of user m ≡ false
    → count (is_active_of user) rows ≤ 1
    → count (is_active_of user) (insert m (update (is_active_of m.user_id) (cancel_row now) rows))
      ≤ 1
replace_other rows m now user e h =
    let few = cancel_rows-OneActive (is_active_of m.user_id) now rows user h in
    ground (
      arith,
      few,
      e,
      count-insert (is_active_of user) m (update (is_active_of m.user_id) (cancel_row now) rows),
    )

pub replace-OneActive :
    (s : Store) (m : Membership) (now : Time)
    → OneActive s
    → OneActive (add_membership m (cancel_active_for_user m.user_id now s))
replace-OneActive s m now h user = elim (Bool-cases (m.user_id == user)) [
  | inl own ↦
      let same : m.user_id ≡ user = ground (arith, ==_iff m.user_id user) in
      subst
        (λ k.
          count (is_active_of user)
            (insert m (update (is_active_of k) (cancel_row now) s.memberships))
          ≤ 1)
        (sym same) (replace_own s.memberships m now user)
  | inr other ↦ replace_other s.memberships m now user (ground (arith, other)) (h user)
]

replace_membership-OneActive :
    (s : Store) (user : Key) (subscription : Option Key) (m : Membership) (now : Time)
    → m.user_id ≡ user
    → OneActive s
    → OneActive (replace_membership user subscription m now s).1
replace_membership-OneActive s user subscription m now own h =
    elim (Bool-cases (
      is_some
        (find (has_subscription subscription) (cancel_active_for_user user now s).memberships))) [
          | inl taken ↦
              rw taken (λ u. cancel_rows-OneActive (is_active_of user) now s.memberships u (h u))
          | inr free ↦ rw free (
              subst (λ k. OneActive (add_membership m (cancel_active_for_user k now s))) own
                (replace-OneActive s m now h))
        ]

handle_checkout_completed-OneActive :
    (id : Key) (session : Session) (now : Time) (s : Store)
    → OneActive s
    → OneActive (handle_checkout_completed id session now s).1
unfolding handle_checkout_completed
handle_checkout_completed-OneActive id session now s h = elim (Option-cases session.user_id) [
  | inl e ↦ rw e h
  | inr (u, e) ↦ elim (Option-cases session.tier) [
    | inl f ↦ rw (e, f) h
    | inr (t, f) ↦ elim (Option-cases session.billing_cycle) [
      | inl g ↦ rw (e, f, g) h
      | inr (c, g) ↦
          rw (e, f, g)
            (replace_membership-OneActive s u session.subscription
              (new_membership id u t c session.subscription session.customer now) now refl h)
    ]
  ]
]

pub apply_event-OneActive :
    (d : EventData) (id : Key) (now : Time) (s : Store)
    → OneActive s
    → OneActive (apply_event d id now s).1
unfolding apply_event handle_subscription_deleted
apply_event-OneActive (checkout_completed session) id now s h =
    handle_checkout_completed-OneActive id session now s h
apply_event-OneActive (subscription_deleted k) id now s h =
    λ user. cancel_rows-OneActive (is_subscription k) now s.memberships user (h user)
apply_event-OneActive other_event id now s h = h

-- Answering after a write changes nothing.
pub answer-state :
    (m : Handler Store Failure (Unit {0})) (b : Bool) (s : Store) → ((m >> pure b) s).1 ≡ (m s).1
answer-state m b s = elim (Result-cases (m s).0) [
  | inl (u, e) ↦ ground (arith, e)
  | inr (x, e) ↦ ground (arith, e)
]

-- What a delivery leaves.
pub process-state :
    (event : Event) (id : Key) (now : Time) (s : Store)
    → ((is_some (find (λ k. k == event.id) s.processed_events) ≡ true)
        × (process event id now s ≡ (ok false, s)))
      ⊎ ((find (λ k. k == event.id) s.processed_events ≡ none)
          × ((process event id now s).1
              ≡ (apply_event event.data_object id now
                  (record s { processed_events = insert event.id s.processed_events })).1))
unfolding process record_stripe_event_once
process-state event id now s = elim (Option-cases (find (λ k. k == event.id) s.processed_events)) [
  | inr (k, seen) ↦ inl (ground (arith, seen), ground (arith, seen))
  | inl new ↦ inr (
    new,
    rw new (
        answer-state (apply_event event.data_object id now) true
          (record s { processed_events = insert event.id s.processed_events })),
  )
]

process-OneActive :
    (event : Event) (id : Key) (now : Time) (s : Store)
    → OneActive s
    → OneActive (process event id now s).1
process-OneActive event id now s h = elim (process-state event id now s) [
  | inl (seen, e) ↦ subst (λ (x : Result Failure Bool × Store). OneActive x.1) (sym e) h
  | inr (new, e) ↦ subst OneActive (sym e) (
      apply_event-OneActive event.data_object id now
        (record s { processed_events = insert event.id s.processed_events }) h)
]

-- A request to the membership API, or a delivery of a webhook that Stripe's SDK accepts.
pub data Call : Type 0 where
  subscribes :
      (Option (Checkout → Option Key)) → Key → Key → MembershipTier → BillingCycle → Time → Call
  cancels : Key → Key → Time → Call
  delivers : Event → Key → Time → Call

abbrev pub run : Call → Store → Store
run (subscribes stripe id user tier cycle now) s = (subscribe stripe id user tier cycle now s).1
run (cancels user id now) s = (cancel user id now s).1
run (delivers event id now) s = (process event id now s).1

abbrev pub run_all : List Call → Store → Store
run_all [] s = s
run_all (call ∷ calls) s = run_all calls (run call s)

-- A checkout at Stripe leaves the memberships to the webhook.
pub subscribe_real :
    (stripe : Checkout → Option Key) (id user : Key) (tier : MembershipTier) (cycle : BillingCycle)
    (now : Time) (s : Store)
    → (subscribe (some stripe) id user tier cycle now s).1 ≡ s
unfolding subscribe
subscribe_real stripe id user tier cycle now s =
    elim (Option-cases (
      stripe (record {
        unit_amount = price_cents tier cycle;
        billing_cycle = cycle;
        tier = tier;
        user_id = user;
      }))) [ inl e ↦ ground (arith, e) | inr (url, e) ↦ ground (arith, e) ]

run-OneActive : (call : Call) (s : Store) → OneActive s → OneActive (run call s)
unfolding subscribe cancel
run-OneActive (subscribes (some stripe) id user tier cycle now) s h =
    subst OneActive (sym (subscribe_real stripe id user tier cycle now s)) h
run-OneActive (subscribes none id user tier cycle now) s h =
    replace-OneActive s (new_membership id user tier cycle none none now) now h
run-OneActive (cancels user id now) s h =
    λ u. ground (arith, cancel_rows-OneActive (is_active_row user id) now s.memberships u (h u))
run-OneActive (delivers event id now) s h = process-OneActive event id now s h

-- After any sequence of subscriptions, cancellations and webhook deliveries, no user has two
-- active memberships, if none had at the start.
pub one_active : (calls : List Call) (s : Store) → OneActive s → OneActive (run_all calls s)
one_active [] s h = h
one_active (call ∷ calls) s h = one_active calls (run call s) (run-OneActive call s h)
