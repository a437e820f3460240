-- ===== src/Membership/Current.antt =====
-- What a user is shown as the current membership.
use ndy_hub.Common.{
  Key, Time, Bool, true, Option, none, some, List, [], ◌∷◌, ◌==◌, ==_iff, ◌≡◌, refl, ap, arith,
}
use ndy_hub.Common.Handler.{ok}
use ndy_hub.Common.Table.{find, update, select, insert}
use ndy_hub.Common.Table.Laws.{find-update}
use mathlib.Core.Option
use ndy_hub.Membership.{
  has_subscription, MembershipTier, BillingCycle, is_active, Membership, Store, is_active_of,
  cancel_row, new_membership, dev_activated, subscribe, serialize_membership, newest_first,
  get_current_and_history, Session, checkout_completed, Event, handle_checkout_completed,
  record_stripe_event_once, apply_event, process,
}

newest_first-insert :
    (xs : List Membership) (y : Membership) → newest_first (insert y xs) ≡ y ∷ newest_first xs
unfolding newest_first insert
newest_first-insert [] y = refl
newest_first-insert (x ∷ xs) y = rw (newest_first-insert xs y)

select-insert :
    (q : Membership → Bool) (xs : List Membership) (y : Membership)
    → q y ≡ true
    → select q (insert y xs) ≡ insert y (select q xs)
unfolding select insert
select-insert q [] y h = ground (arith, h)
select-insert q (x ∷ xs) y h = ground (arith, select-insert q xs y h)

add-current :
    (rows : List Membership) (m : Membership) (user : Key)
    → (m.user_id == user) ≡ true
    → is_active m.status ≡ true
    → find
        (λ x. is_active x.status)
        (newest_first (select (λ x. x.user_id == user) (insert m rows)))
      ≡ some m
unfolding find
add-current rows m user own act =
    rw
      (
        select-insert (λ x. x.user_id == user) rows m own,
        newest_first-insert (select (λ x. x.user_id == user) rows) m,
      )
      (ground (arith, act))

-- Without Stripe, a subscription answers with its id, and the user is shown the new membership
-- as the current one, with the tier and the cycle asked for and a period of 30 or of 365 days.
pub subscribe-current :
    (s : Store) (id user : Key) (tier : MembershipTier) (cycle : BillingCycle) (now : Time)
    → ((subscribe none id user tier cycle now s).0 ≡ ok (dev_activated id))
      × ((get_current_and_history user (subscribe none id user tier cycle now s).1).0
          ≡ some (serialize_membership (new_membership id user tier cycle none none now)))
unfolding subscribe get_current_and_history
subscribe-current s id user tier cycle now =
    let e =
      add-current (update (is_active_of user) (cancel_row now) s.memberships)
        (new_membership id user tier cycle none none now) user (ground (arith, ==_iff user user))
        refl in
    (refl, ap (Option.map serialize_membership) e)

cancel_row-subscription :
    (k : Option Key) (now : Time) (m : Membership)
    → has_subscription k (cancel_row now m) ≡ has_subscription k m
cancel_row-subscription none now m = refl
cancel_row-subscription (some k) now m = refl

-- The first delivery of a completed checkout makes what was bought the user's current membership,
-- if no row has its Stripe subscription yet.
pub process-current :
    (event : Event) (session : Session) (user : Key) (tier : MembershipTier) (cycle : BillingCycle)
    (id : Key) (now : Time) (s : Store)
    → event.data_object ≡ checkout_completed session
    → session.user_id ≡ some user
    → session.tier ≡ some tier
    → session.billing_cycle ≡ some cycle
    → find (λ k. k == event.id) s.processed_events ≡ none
    → find (has_subscription session.subscription) s.memberships ≡ none
    → (get_current_and_history user (process event id now s).1).0
      ≡ some (
          serialize_membership
            (new_membership id user tier cycle session.subscription session.customer now))
unfolding process record_stripe_event_once apply_event handle_checkout_completed
    get_current_and_history
process-current event session user tier cycle id now s d u t c new free =
    let e =
      add-current (update (is_active_of user) (cancel_row now) s.memberships)
        (new_membership id user tier cycle session.subscription session.customer now) user
        (ground (arith, ==_iff user user)) refl in
    let still_free : find (has_subscription session.subscription)
          (update (is_active_of user) (cancel_row now) s.memberships)
        ≡ none =
      ground (
        arith,
        free,
        find-update (has_subscription session.subscription) (is_active_of user) (cancel_row now)
            s.memberships (cancel_row-subscription session.subscription now),
      ) in
    ground (arith, d, u, t, c, new, e, still_free)
