-- ===== src/Membership/Webhook.antt =====
-- Stripe delivers an event more than once; it takes effect once.
use ndy_hub.Common.{
  Key, Time, Bool, true, false, Option, none, some, List, [], ◌∷◌, ◌==◌, is_some, Bool-cases,
  Option-cases, ==_iff, ◌≡◌, refl, sym, ap, ◌⊎◌, inl, inr, arith,
}
use ndy_hub.Common.Handler.{Result, ok}
use ndy_hub.Common.Table.{find, insert}
use ndy_hub.Common.Table.Laws.{find-insert}
use mathlib.Core.Path.{subst}
use ndy_hub.Membership.{
  has_subscription, replace_membership, Membership, new_membership, cancel_active_for_user, Failure,
  Store, subscribe, cancel, EventData, checkout_completed, subscription_deleted, other_event, Event,
  handle_checkout_completed, handle_subscription_deleted, apply_event, process,
}
use ndy_hub.Membership.OneActive.{
  Call, subscribes, cancels, delivers, run, run_all, subscribe_real, process-state,
}

-- The event has been delivered.
abbrev pub IsSeen : Key → Store → Type 0
IsSeen id s = is_some (find (λ k. k == id) s.processed_events) ≡ true

-- An event that has been seen is answered as a duplicate and changes nothing.
process_seen :
    (event : Event) (id : Key) (now : Time) (s : Store)
    → IsSeen event.id s
    → process event id now s ≡ (ok false, s)
process_seen event id now s h = elim (process-state event id now s) [
  | inl (seen, e) ↦ e
  | inr (new, e) ↦ absurd (ground (arith, h, new))
]

replace_membership-events :
    (user : Key) (subscription : Option Key) (m : Membership) (now : Time) (s : Store)
    → (replace_membership user subscription m now s).1.processed_events ≡ s.processed_events
replace_membership-events user subscription m now s =
    elim (Bool-cases (
      is_some
        (find (has_subscription subscription) (cancel_active_for_user user now s).memberships))) [
          | inl taken ↦ rw taken refl
          | inr free ↦ rw free refl
        ]

apply_event-events :
    (d : EventData) (id : Key) (now : Time) (s : Store)
    → (apply_event d id now s).1.processed_events ≡ s.processed_events
unfolding apply_event handle_checkout_completed handle_subscription_deleted
apply_event-events (checkout_completed session) id now s = elim (Option-cases session.user_id) [
  | inl e ↦ ground (arith, e)
  | inr (u, e) ↦ elim (Option-cases session.tier) [
    | inl f ↦ ground (arith, e, f)
    | inr (t, f) ↦ elim (Option-cases session.billing_cycle) [
      | inl g ↦ ground (arith, e, f, g)
      | inr (c, g) ↦
          rw (e, f, g)
            (replace_membership-events u session.subscription
              (new_membership id u t c session.subscription session.customer now) now s)
    ]
  ]
]
apply_event-events (subscription_deleted k) id now s = refl
apply_event-events other_event id now s = refl

insert-IsSeen :
    (keys : List Key) (id new : Key)
    → is_some (find (λ k. k == id) keys) ≡ true
    → is_some (find (λ k. k == id) (insert new keys)) ≡ true
insert-IsSeen keys id new h = elim (Option-cases (find (λ k. k == id) keys)) [
  | inl missing ↦ absurd (ground (arith, missing, h))
  | inr (k, found) ↦ ground (arith, found, find-insert (λ j. j == id) new keys)
]

-- The events that have been seen after a delivery.
process-events :
    (event : Event) (id : Key) (now : Time) (s : Store)
    → (IsSeen event.id s × ((process event id now s).1 ≡ s))
      ⊎ ((process event id now s).1.processed_events ≡ insert event.id s.processed_events)
process-events event id now s = elim (process-state event id now s) [
  | inl (seen, e) ↦ inl (seen, ap (λ (x : Result Failure Bool × Store). x.1) e)
  | inr (new, e) ↦ inr (
      rw e (
        apply_event-events event.data_object id now
          (record s { processed_events = insert event.id s.processed_events })))
]

process-IsSeen :
    (event : Event) (id : Key) (now : Time) (s : Store) → IsSeen event.id (process event id now s).1
process-IsSeen event id now s = elim (process-events event id now s) [
  | inl (seen, same) ↦ subst (IsSeen event.id) (sym same) seen
  | inr eq ↦ rw eq (elim (Option-cases (find (λ k. k == event.id) s.processed_events)) [
    | inl missing ↦ ground (
      arith,
      missing,
      ==_iff event.id event.id,
      find-insert (λ j. j == event.id) event.id s.processed_events,
    )
    | inr (k, found) ↦
        ground (arith, found, find-insert (λ j. j == event.id) event.id s.processed_events)
  ])
]

run-IsSeen : (call : Call) (s : Store) (id : Key) → IsSeen id s → IsSeen id (run call s)
unfolding subscribe cancel
run-IsSeen (subscribes (some stripe) new user tier cycle now) s id h =
    subst (IsSeen id) (sym (subscribe_real stripe new user tier cycle now s)) h
run-IsSeen (subscribes none new user tier cycle now) s id h = h
run-IsSeen (cancels user m now) s id h = ground (arith, h)
run-IsSeen (delivers event new now) s id h = elim (process-events event new now s) [
  | inl (seen, same) ↦ subst (IsSeen id) (sym same) h
  | inr eq ↦ rw eq (insert-IsSeen s.processed_events id event.id h)
]

run_all-IsSeen :
    (calls : List Call) (s : Store) (id : Key) → IsSeen id s → IsSeen id (run_all calls s)
run_all-IsSeen [] s id h = h
run_all-IsSeen (call ∷ calls) s id h = run_all-IsSeen calls (run call s) id (run-IsSeen call s id h)

-- A second delivery of an event, after any requests and other deliveries, is answered as a
-- duplicate and changes nothing.
pub deliver_twice :
    (event : Event) (id : Key) (now : Time) (s : Store) (between : List Call) (id' : Key)
    (later : Time)
    → let t = run_all between (process event id now s).1 in
      process event id' later t ≡ (ok false, t)
deliver_twice event id now s between id' later =
    let t = run_all between (process event id now s).1 in
    process_seen event id' later t
      (run_all-IsSeen between (process event id now s).1 event.id (process-IsSeen event id now s))
