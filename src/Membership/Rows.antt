-- ===== src/Membership/Rows.antt =====
-- Plans with their prices (apps/api/src/membership/tier-config.ts), and the tables of memberships
-- and of processed events (apps/api/prisma/schema.prisma).
use ndy_hub.Common.{ℕ, Key, Time, Bool, true, false, Option, List, String}

pub data MembershipTier : Type 0 where
  rise flow pulse vault mode legacy : MembershipTier

pub data BillingCycle : Type 0 where
  monthly annual : BillingCycle

pub data MembershipStatus : Type 0 where
  active cancelled expired : MembershipStatus

abbrev pub is_active : MembershipStatus → Bool
is_active active = true
is_active _ = false

-- `TIER_CONFIG`, less the benefits
abbrev pub label : MembershipTier → String
label rise = "NDY Rise"
label flow = "NDY Flow"
label pulse = "NDY Pulse"
label vault = "NDY Vault"
label mode = "NDY Mode"
label legacy = "NDY Legacy"

abbrev pub monthly_price_cents : MembershipTier → ℕ
monthly_price_cents rise = 900
monthly_price_cents flow = 1900
monthly_price_cents pulse = 3900
monthly_price_cents vault = 7900
monthly_price_cents mode = 14900
monthly_price_cents legacy = 29900

abbrev pub annual_price_cents : MembershipTier → ℕ
annual_price_cents rise = 9000
annual_price_cents flow = 19000
annual_price_cents pulse = 39000
annual_price_cents vault = 79000
annual_price_cents mode = 149000
annual_price_cents legacy = 299000

pub record Membership : Type 0 where
  pub id : Key
  pub user_id : Key
  pub tier : MembershipTier
  pub billing_cycle : BillingCycle
  pub status : MembershipStatus
  pub started_at : Time
  pub current_period_end : Time
  pub cancelled_at : Option Time
  pub stripe_subscription_id : Option Key
  pub stripe_customer_id : Option Key

pub record Store : Type 0 where
  pub memberships : List Membership
  pub processed_events : List Key

pub data Failure : Type 0 where
  no_checkout_url no_active_membership missing_signature not_configured bad_signature : Failure
  subscription_taken : Failure
