-- ===== src/Actions/Consent.antt =====
-- ContextBrokerService (apps/api/src/context-broker/context-broker.service.ts): which AI agents may
-- act for a user, and on what. The texts of the refusals are constructors.
pub mod Allowed
pub mod Grants
mod Tests
use ndy_hub.Common.{
  Key, Time, Bool, true, false, not, ◌&&◌, Option, none, some, List, [], ◌∷◌, ◌++◌, ◌==◌,
  if◌then◌else◌, is_some, String,
}
use ndy_hub.Common.Handler.{Handler, pure, throw_if, or_throw, query, write, ◌>>=◌, ◌>>◌}
use ndy_hub.Common.Table.{find, update, every, insert}
use text.Mathlib.Text.{◌==◌ as str_eq}

-- `AiAgentConsentScope`
pub data ConsentScope : Type 0 where
  email_summarize email_draft_reply email_modify_text email_content_egress : ConsentScope

abbrev pub scope_eq : ConsentScope → ConsentScope → Bool
scope_eq email_summarize email_summarize = true
scope_eq email_draft_reply email_draft_reply = true
scope_eq email_modify_text email_modify_text = true
scope_eq email_content_egress email_content_egress = true
scope_eq _ _ = false

-- `OAuthClientType`
pub data ClientType : Type 0 where
  confidential public ai_agent : ClientType

abbrev pub is_ai_agent : ClientType → Bool
is_ai_agent ai_agent = true
is_ai_agent _ = false

pub record Client : Type 0 where
  pub client_id : Key
  pub client_type : ClientType
  pub is_active : Bool

-- `AiAgentConsent`
pub record Grant : Type 0 where
  pub user_id : Key
  pub client_id : Key
  pub scopes : List ConsentScope
  pub granted_at : Time
  pub revoked_at : Option Time

pub record Store : Type 0 where
  pub clients : List Client
  pub grants : List Grant

-- Why an agent is refused.
pub data Refusal : Type 0 where
  no_client_named unknown_client not_an_agent not_active no_scope_defined not_granted
        missing_scopes :
      Refusal

pub data ConsentCheck : Type 0 where
  allowed : ConsentCheck
  refused : Refusal → ConsentCheck

-- `ACTION_SCOPE_TO_CONSENT` and `consentScopeFor`: a scope that is not listed has none.
unfoldable pub consent_scope_for : String → Option ConsentScope
consent_scope_for scope =
    if str_eq scope "email:summarize"
    then some email_summarize
    else if str_eq scope "email:draft-reply"
    then some email_draft_reply
    else if str_eq scope "email:modify-text"
    then some email_modify_text
    else if str_eq scope "email:egress"
    then some email_content_egress
    else none

abbrev pub is_client : Key → Client → Bool
is_client id c = c.client_id == id

-- The unique pair `userId_oauthClientId`.
abbrev pub is_grant : Key → Key → Grant → Bool
is_grant user_id client_id g = g.user_id == user_id && g.client_id == client_id

abbrev pub includes : List ConsentScope → ConsentScope → Bool
includes scopes s = is_some (find (scope_eq s) scopes)

-- The loop over the required scopes; `none` where one of them is not mapped.
pub needed_scopes : List String → List ConsentScope → Option (List ConsentScope)
needed_scopes [] needed = some needed
needed_scopes (scope ∷ scopes) needed = elim (consent_scope_for scope) [
  | none ↦ none
  | some mapped ↦
      needed_scopes scopes (if includes needed mapped then needed else needed ++ mapped ∷ [])
]

-- A grant that is there and not revoked.
abbrev pub live : Option Grant → Option Grant
live none = none
live (some g) = if is_some g.revoked_at then none else some g

-- The last part of `assertConsent`: what the user has granted against what is needed.
abbrev pub check_grant : List ConsentScope → Option Grant → ConsentCheck
check_grant needed none = refused not_granted
check_grant needed (some g) =
    if every (includes g.scopes) needed then allowed else refused missing_scopes

abbrev pub check_scopes : Key → Key → List String → Store → ConsentCheck
check_scopes user_id client_id [] s = allowed
check_scopes user_id client_id (scope ∷ scopes) s = elim (needed_scopes (scope ∷ scopes) []) [
  | none ↦ refused no_scope_defined
  | some needed ↦ check_grant needed (live (find (is_grant user_id client_id) s.grants))
]

abbrev pub check_client : Key → Client → List String → Store → ConsentCheck
check_client user_id c required s =
    if not (is_ai_agent c.client_type)
    then refused not_an_agent
    else if not c.is_active
    then refused not_active
    else check_scopes user_id c.client_id required s

unfoldable pub assert_consent : Key → Option Key → List String → Store → ConsentCheck
assert_consent user_id none required s = refused no_client_named
assert_consent user_id (some client_id) required s = elim (find (is_client client_id) s.clients) [
  | none ↦ refused unknown_client
  | some c ↦ check_client user_id c required s
]

pub data Failure : Type 0 where
  no_such_client agent_only agent_inactive no_active_grant : Failure

-- `[...new Set(scopes)]`: each scope at its first place.
pub unique_scopes : List ConsentScope → List ConsentScope → List ConsentScope
unique_scopes seen [] = seen
unique_scopes seen (s ∷ scopes) =
    unique_scopes (if includes seen s then seen else seen ++ s ∷ []) scopes

abbrev pub new_grant : Key → Key → List ConsentScope → Time → Grant
new_grant user_id client_id scopes now = record {
  user_id = user_id;
  client_id = client_id;
  scopes = scopes;
  granted_at = now;
  revoked_at = none;
}

-- Granting again opens the same row.
abbrev pub upsert : Grant → List Grant → List Grant
upsert g grants =
    if is_some (find (is_grant g.user_id g.client_id) grants)
    then update (is_grant g.user_id g.client_id)
        (λ r. record r { scopes = g.scopes; revoked_at = none; granted_at = g.granted_at }) grants
    else insert g grants

pub grant : Key → Key → List ConsentScope → Time → Handler Store Failure Grant
unfolding unique_scopes
grant user_id client_id scopes now = do
  c ← or_throw (← query (λ s. find (is_client client_id) s.clients)) no_such_client
  throw_if (not (is_ai_agent c.client_type)) agent_only
  throw_if (not c.is_active) agent_inactive
  let g = new_grant user_id client_id (unique_scopes [] scopes) now
  write (λ s. record s { grants = upsert g s.grants })
  pure g

pub revoke : Key → Key → Time → Handler Store Failure Grant
revoke user_id client_id now = do
  g ← or_throw (← query (λ s. live (find (is_grant user_id client_id) s.grants))) no_active_grant
  write (λ s. record s {
    grants = update (is_grant user_id client_id) (λ r. record r { revoked_at = some now }) s.grants;
  })
  pure (record g { revoked_at = some now })
