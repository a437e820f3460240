-- ===== src/Actions/Consent/Tests.antt =====
-- The theorem on consent at a concrete input.
use ndy_hub.Common.{true, some, [], ◌∷◌, ◌≡◌, ◌↔◌}
use ndy_hub.Actions.Consent.{
  email_summarize, ai_agent, allowed, Client, Store, grant, assert_consent,
}
use ndy_hub.Actions.Consent.Allowed.{ActiveAgent, Granted, assert_consent-Granted}

abbrev assistant : Client
assistant = record { client_id = 9; client_type = ai_agent; is_active = true }

abbrev granted : Store
granted =
    (grant 2 9 (email_summarize ∷ email_summarize ∷ []) 1000
      (record { clients = assistant ∷ []; grants = [] })).1

assert_consent-Granted_example :
    assert_consent 2 (some 9) ("email:summarize" ∷ []) granted ≡ allowed
    ↔ ActiveAgent 9 granted × Granted 2 9 ("email:summarize" ∷ []) granted
assert_consent-Granted_example = assert_consent-Granted 2 9 "email:summarize" [] granted
