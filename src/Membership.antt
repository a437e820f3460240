-- ===== src/Membership.antt =====
-- MembershipService (apps/api/src/membership/membership.service.ts), the price table
-- (tier-config.ts beside it) and the Stripe webhook (stripe-webhook.controller.ts). Stripe is a
-- parameter: what it answers to a checkout, and what its SDK makes of a webhook's body and
-- signature. The ids that the database draws and the time are arguments. A request handler is
-- one run with no other request in between.
pub mod Rows
pub mod OneActive
pub mod Webhook
pub mod Current
mod Tests
pub use ndy_hub.Membership.Rows.{
  MembershipTier, BillingCycle, MembershipStatus, Membership, Store, Failure, rise, flow, pulse,
  vault, mode, legacy, monthly, annual, active, cancelled, expired, no_checkout_url,
  no_active_membership, missing_signature, not_configured, bad_signature, subscription_taken,
  is_active, label, monthly_price_cents, annual_price_cents,
}
use ndy_hub.Common.{
  ℕ, Key, Time, Bool, true, false, ◌&&◌, Option, none, some, List, [], ◌∷◌, ◌++◌, map, ◌==◌,
  if◌then◌else◌, is_some, ◌+◌, ◌*◌, String,
}
use ndy_hub.Common.Handler.{Handler, pure, throw, throw_if, or_throw, query, write, ◌>>=◌, ◌>>◌}
use ndy_hub.Common.Table.{find, update, count, select, insert}
use mathlib.Core.Option

abbrev pub ms_per_day : ℕ
ms_per_day = 24 * 60 * 60 * 1000

abbrev pub add_billing_period : Time → BillingCycle → Time
add_billing_period from monthly = from + 30 * ms_per_day
add_billing_period from annual = from + 365 * ms_per_day

-- An active membership of the user.
abbrev pub is_active_of : Key → Membership → Bool
is_active_of user_id m = m.user_id == user_id && is_active m.status

abbrev pub cancel_row : Time → Membership → Membership
cancel_row now m = record m { status = cancelled; cancelled_at = some now }

-- `cancelActiveForUser`
abbrev pub cancel_active_for_user : Key → Time → Store → Store
cancel_active_for_user user_id now s = record s {
  memberships = update (is_active_of user_id) (cancel_row now) s.memberships;
}

abbrev pub new_membership :
    Key → Key → MembershipTier → BillingCycle → Option Key → Option Key → Time → Membership
new_membership id user_id tier cycle subscription customer now = record {
  id = id;
  user_id = user_id;
  tier = tier;
  billing_cycle = cycle;
  status = active;
  started_at = now;
  current_period_end = add_billing_period now cycle;
  cancelled_at = none;
  stripe_subscription_id = subscription;
  stripe_customer_id = customer;
}

abbrev pub add_membership : Membership → Store → Store
add_membership m s = record s { memberships = insert m s.memberships }

-- What a checkout session is created with.
pub record Checkout : Type 0 where
  pub unit_amount : ℕ
  pub billing_cycle : BillingCycle
  pub tier : MembershipTier
  pub user_id : Key

abbrev pub price_cents : MembershipTier → BillingCycle → ℕ
price_cents tier monthly = monthly_price_cents tier
price_cents tier annual = annual_price_cents tier

pub data SubscribeResult : Type 0 where
  checkout : Key → SubscribeResult
  dev_activated : Key → SubscribeResult

-- `stripe` is there when the server has a key for it; it answers a checkout with its URL.
pub subscribe :
    (stripe : Option (Checkout → Option Key))
    → Key
    → Key
    → MembershipTier
    → BillingCycle
    → Time
    → Handler Store Failure SubscribeResult
subscribe (some sessions_create) id user_id tier cycle now = do
  url ←
      or_throw
        (sessions_create (record {
          unit_amount = price_cents tier cycle;
          billing_cycle = cycle;
          tier = tier;
          user_id = user_id;
        }))
        no_checkout_url
  pure (checkout url)
subscribe none id user_id tier cycle now = do
  write (cancel_active_for_user user_id now)
  write (add_membership (new_membership id user_id tier cycle none none now))
  pure (dev_activated id)

abbrev pub is_active_row : Key → Key → Membership → Bool
is_active_row user_id id m = m.id == id && is_active_of user_id m

pub cancel : Key → Key → Time → Handler Store Failure (Unit {0})
cancel user_id id now = do
  n ← query (λ s. count (is_active_row user_id id) s.memberships)
  write (λ s. record s {
    memberships = update (is_active_row user_id id) (cancel_row now) s.memberships;
  })
  throw_if (n == 0) no_active_membership

-- What `serializeMembership` shows.
pub record View : Type 0 where
  pub id : Key
  pub tier : MembershipTier
  pub tier_label : String
  pub billing_cycle : BillingCycle
  pub status : MembershipStatus
  pub started_at : Time
  pub current_period_end : Time
  pub cancelled_at : Option Time

abbrev pub serialize_membership : Membership → View
serialize_membership m = record {
  id = m.id;
  tier = m.tier;
  tier_label = label m.tier;
  billing_cycle = m.billing_cycle;
  status = m.status;
  started_at = m.started_at;
  current_period_end = m.current_period_end;
  cancelled_at = m.cancelled_at;
}

-- The newest first: `orderBy: { createdAt: 'desc' }`.
unfoldable pub newest_first : List Membership → List Membership
newest_first [] = []
newest_first (m ∷ rows) = newest_first rows ++ m ∷ []

pub get_current_and_history : Key → Store → Option View × List View
get_current_and_history user_id s =
    let rows = newest_first (select (λ m. m.user_id == user_id) s.memberships) in
    (
      Option.map serialize_membership (find (λ m. is_active m.status) rows),
      map serialize_membership rows,
    )

-- A checkout session of a webhook event. The metadata may lack what the checkout was created with.
pub record Session : Type 0 where
  pub user_id : Option Key
  pub tier : Option MembershipTier
  pub billing_cycle : Option BillingCycle
  pub subscription : Option Key
  pub customer : Option Key

pub data EventData : Type 0 where
  checkout_completed : Session → EventData
  subscription_deleted : Key → EventData
  other_event : EventData

pub record Event : Type 0 where
  pub id : Key
  pub data_object : EventData

-- The unique column `stripeSubscriptionId`; rows that leave it null do not collide.
abbrev pub has_subscription : Option Key → Membership → Bool
has_subscription none m = false
has_subscription (some k) m = elim m.stripe_subscription_id [ none ↦ false | some j ↦ j == k ]

-- The two writes for a session that has its metadata. The first stays where the second throws.
abbrev pub replace_membership :
    Key → Option Key → Membership → Time → Handler Store Failure (Unit {0})
replace_membership user_id subscription m now = do
  write (cancel_active_for_user user_id now)
  throw_if (← query (λ s. is_some (find (has_subscription subscription) s.memberships)))
      subscription_taken
  write (add_membership m)

-- `handleCheckoutCompleted`: a session that lacks metadata is logged alone.
pub handle_checkout_completed : Key → Session → Time → Handler Store Failure (Unit {0})
handle_checkout_completed id session now = elim session.user_id [
  | none ↦ pure tt
  | some u ↦ elim session.tier [
    | none ↦ pure tt
    | some t ↦ elim session.billing_cycle [
      | none ↦ pure tt
      | some c ↦
          replace_membership u session.subscription
            (new_membership id u t c session.subscription session.customer now) now
    ]
  ]
]

abbrev pub is_subscription : Key → Membership → Bool
is_subscription subscription m =
    elim m.stripe_subscription_id [ none ↦ false | some k ↦ k == subscription ]
    && is_active m.status

pub handle_subscription_deleted : Key → Time → Store → Store
handle_subscription_deleted subscription now s = record s {
  memberships = update (is_subscription subscription) (cancel_row now) s.memberships;
}

-- `recordStripeEventOnce`: the event id is the table's primary key.
pub record_stripe_event_once : Key → Store → Bool × Store
record_stripe_event_once event_id s =
    if is_some (find (λ k. k == event_id) s.processed_events)
    then (false, s)
    else (true, record s { processed_events = insert event_id s.processed_events })

-- The switch on the event's type.
pub apply_event : EventData → Key → Time → Handler Store Failure (Unit {0})
unfolding handle_subscription_deleted
apply_event (checkout_completed session) id now = handle_checkout_completed id session now
apply_event (subscription_deleted subscription) id now =
    write (handle_subscription_deleted subscription now)
apply_event other_event id now = pure tt

-- The body of the webhook once Stripe's SDK has read the event. The answer is whether this was
-- the event's first delivery.
pub process : Event → Key → Time → Handler Store Failure Bool
unfolding record_stripe_event_once
process event id now = do
  first ← query (λ s. (record_stripe_event_once event.id s).0)
  write (λ s. (record_stripe_event_once event.id s).1)
  if first then (apply_event event.data_object id now >> pure true) else pure false

-- `verifyWebhookSignature` and `StripeWebhookController.handle`. `construct_event` is there when
-- Stripe is configured; it throws on a signature that does not fit the body.
pub handle :
    (construct_event : Option (Key → Key → Option Event))
    → Option Key
    → Option Key
    → Key
    → Time
    → Handler Store Failure Bool
unfolding process
handle construct_event (some signature) (some raw_body) id now = do
  construct ← or_throw construct_event not_configured
  event ← or_throw (construct raw_body signature) bad_signature
  process event id now
handle _ _ _ id now = throw missing_signature
