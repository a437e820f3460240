-- ===== src/Actions/Engine/Agents.antt =====
-- Agents reach no registered action: none of the scopes that the actions require has a consent scope.
use ndy_hub.Common.{
  Key, Time, true, Option, none, some, List, [], ◌∷◌, Bool-cases, Option-cases, ◌≡◌, refl, ◌≢◌, inl,
  inr, arith, String,
}
use ndy_hub.Common.Table.{find}
use ndy_hub.Common.Table.Laws.{In, find-In}
use ndy_hub.Actions.Consent
use ndy_hub.Actions.Consent.{allowed, assert_consent}
use ndy_hub.Actions.Registry.{Entry, action_registry, find_action_definition}
use ndy_hub.Actions.Engine.{
  Input, Store, Domain, is_agent, has_key, consent_of, is_enabled, is_member, authorize, submit,
}
use text.Mathlib.Text.{◌==◌ as str_eq}
use ndy_hub.Actions.Consent.Allowed.{assert_consent-Granted}
use ndy_hub.Actions.Engine.Gate.{consent-cases}

unmapped-refused :
    (user_id : Key) (client : Option Key) (scope : String) (rest : List String) (s : Consent.Store)
    → Consent.consent_scope_for scope ≡ none
    → assert_consent user_id client (scope ∷ rest) s ≢ allowed
unfolding assert_consent
unmapped-refused user_id none scope rest s e a = cc
unmapped-refused user_id (some k) scope rest s e a =
    let (m, mapped, listed) = ((assert_consent-Granted user_id k scope rest s).0 a).1.scopes.0 in
    ground (arith, e, mapped)

registered-refused :
    (e : Entry) (user_id : Key) (client : Option Key) (s : Consent.Store)
    → In e action_registry
    → assert_consent user_id client e.required_scopes s ≢ allowed
unfolding Consent.consent_scope_for
registered-refused e user_id client s (inl same) a =
    unmapped-refused user_id client "calendar" [] s refl (rw same at a)
registered-refused e user_id client s (inr (inl same)) a =
    unmapped-refused user_id client "contacts" [] s refl (rw same at a)
registered-refused e user_id client s (inr (inr (inl same))) a =
    unmapped-refused user_id client "tasks" [] s refl (rw same at a)
registered-refused e user_id client s (inr (inr (inr (inl same)))) a =
    unmapped-refused user_id client "ndyspace" [] s refl (rw same at a)
registered-refused e user_id client s (inr (inr (inr (inr nowhere)))) a = nowhere

module _ {D : Type 0} (domain : Domain D) where
  authorize_agent :
      (id approval_id : Key) (i : Input) (e : Entry) (now : Time) (s : Store D)
      → In e action_registry
      → is_agent i.origin.type ≡ true
      → let t = (authorize domain id approval_id i e now s).1 in
        (t.domain ≡ s.domain) × (t.approvals ≡ s.approvals)
  unfolding authorize
  authorize_agent id approval_id i e now s known from_agent =
      elim (Bool-cases (is_enabled i.action_key s.switches)) [
        | inr off ↦ (ground (arith, off), ground (arith, off))
        | inl on ↦ elim (Bool-cases (is_member i s.memberships)) [
          | inr outside ↦ (ground (arith, on, outside), ground (arith, on, outside))
          | inl inside ↦ elim (consent-cases (consent_of i e s.consent)) [
            | inr (why, refusal) ↦ (rw (on, inside, refusal) refl, rw (on, inside, refusal) refl)
            | inl fine ↦ absurd (
                registered-refused e i.requested_by_user_id i.origin.detail s.consent known
                  (ground (arith, from_agent, fine)))
          ]
        ]
      ]

  -- No request that originates from an agent runs an action or queues it for approval, whatever
  -- the user has granted: each registered action requires a scope with no consent scope.
  pub agents_shut_out :
      (id approval_id : Key) (i : Input) (now : Time) (s : Store D)
      → is_agent i.origin.type ≡ true
      → let t = (submit domain id approval_id i now s).1 in
        (t.domain ≡ s.domain) × (t.approvals ≡ s.approvals)
  unfolding submit
  agents_shut_out id approval_id i now s from_agent =
      elim (Option-cases (find (has_key i.idempotency_key) s.logs)) [
        | inr (l, seen) ↦ (ground (arith, seen), ground (arith, seen))
        | inl new ↦ elim (Option-cases (find_action_definition i.action_key)) [
          | inl unknown ↦ (ground (arith, new, unknown), ground (arith, new, unknown))
          | inr (e, known) ↦
              let (same, same') =
                authorize_agent id approval_id i e now s
                  (find-In (λ (x : Entry). str_eq x.action_key i.action_key) action_registry known)
                  from_agent in
              (ground (arith, new, known, same), ground (arith, new, known, same'))
        ]
      ]
