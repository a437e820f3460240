-- ===== src/Actions/Engine/Gate.antt =====
-- What an action needs before it runs at its submission.
use ndy_hub.Common.{
  Key, Time, true, some, Bool-cases, Option-cases, ◌≡◌, refl, ◌⊎◌, inl, inr, arith,
}
use ndy_hub.Common.Table.{find}
use ndy_hub.Actions.Consent.{ConsentCheck, allowed, refused, Refusal}
use ndy_hub.Actions.Registry.{is_low, Entry, find_action_definition}
use ndy_hub.Actions.Engine.{
  Input, Store, Domain, has_key, consent_of, is_enabled, is_member, execute, run_or_ask, authorize,
  submit,
}

pub consent-cases : (c : ConsentCheck) → (c ≡ allowed) ⊎ ((why : Refusal) × (c ≡ refused why))
consent-cases allowed = inl refl
consent-cases (refused why) = inr (why, refl)

module _ {D : Type 0} (domain : Domain D) where
  -- The action is registered and enabled, the requester is a member of the workspace, an agent has
  -- the user's consent, the parameters are valid, and the action has low risk.
  pub record MayRun (i : Input) (s : Store D) (e : Entry) : Type 0 where
    pub registered : find_action_definition i.action_key ≡ some e
    pub switched_on : is_enabled i.action_key s.switches ≡ true
    pub member : is_member i s.memberships ≡ true
    pub consent : consent_of i e s.consent ≡ allowed
    pub valid : domain.is_valid e i.params ≡ true
    pub harmless : is_low e.risk_tier ≡ true

  authorize-MayRun :
      (id approval_id : Key) (i : Input) (e : Entry) (now : Time) (s : Store D)
      → find_action_definition i.action_key ≡ some e
      → ((authorize domain id approval_id i e now s).1.domain ≡ s.domain)
        ⊎ (MayRun i s e
            × ((authorize domain id approval_id i e now s).1.domain
                ≡ (domain.perform e i.requested_by_user_id i.params s.domain).1))
  unfolding authorize run_or_ask execute
  authorize-MayRun id approval_id i e now s known =
      elim (Bool-cases (is_enabled i.action_key s.switches)) [
        | inr off ↦ inl (ground (arith, off))
        | inl on ↦ elim (Bool-cases (is_member i s.memberships)) [
          | inr outside ↦ inl (ground (arith, on, outside))
          | inl inside ↦ elim (consent-cases (consent_of i e s.consent)) [
            | inr (why, refusal) ↦ inl (rw (on, inside, refusal) refl)
            | inl fine ↦ elim (Bool-cases (domain.is_valid e i.params)) [
              | inr bad ↦ inl (rw (on, inside, fine, bad) refl)
              | inl good ↦ elim (Bool-cases (is_low e.risk_tier)) [
                | inr risky ↦ inl (rw (on, inside, fine, good, risky) refl)
                | inl harmless ↦ inr (
                  record {
                    registered = known;
                    switched_on = on;
                    member = inside;
                    consent = fine;
                    valid = good;
                    harmless = harmless;
                  },
                  rw (on, inside, fine, good, harmless) refl,
                )
              ]
            ]
          ]
        ]
      ]

  -- A submission changes what the domain services keep only by running the registered action it
  -- names once, and only where the action is enabled, its requester a member of the workspace, an
  -- agent has the user's consent, the parameters are valid and the risk is low.
  pub submit-MayRun :
      (id approval_id : Key) (i : Input) (now : Time) (s : Store D)
      → ((submit domain id approval_id i now s).1.domain ≡ s.domain)
        ⊎ ((e : Entry) × MayRun i s e
            × ((submit domain id approval_id i now s).1.domain
                ≡ (domain.perform e i.requested_by_user_id i.params s.domain).1))
  unfolding submit
  submit-MayRun id approval_id i now s =
      elim (Option-cases (find (has_key i.idempotency_key) s.logs)) [
        | inr (l, seen) ↦ inl (ground (arith, seen))
        | inl new ↦ elim (Option-cases (find_action_definition i.action_key)) [
          | inl unknown ↦ inl (ground (arith, new, unknown))
          | inr (e, known) ↦ elim (authorize-MayRun id approval_id i e now s known) [
            | inl same ↦ inl (ground (arith, new, known, same))
            | inr (may, ran) ↦ inr (e, may, ground (arith, new, known, ran))
          ]
        ]
      ]
