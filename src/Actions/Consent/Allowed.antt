-- ===== src/Actions/Consent/Allowed.antt =====
-- When an agent may act for a user.
use ndy_hub.Common.{
  Key, Bool, true, ◌&&◌, none, some, List, [], ◌∷◌, ◌++◌, if◌then◌else◌, Bool-cases, Option-cases,
  ==_iff, ◌≡◌, refl, sym, ◌↔◌, inl, inr, arith, String,
}
use ndy_hub.Common.Table.{find, every}
use ndy_hub.Common.Table.Laws.{All, find_holds}
use mathlib.Core.Path.{subst}
use ndy_hub.Actions.Consent.{
  ConsentScope, email_summarize, email_draft_reply, email_modify_text, email_content_egress,
  scope_eq, is_ai_agent, Client, Grant, Store, allowed, consent_scope_for, is_client, is_grant,
  includes, needed_scopes, check_scopes, check_client, assert_consent,
}

pub scope_eq_sound : (a b : ConsentScope) → scope_eq a b ≡ true → a ≡ b
scope_eq_sound email_summarize email_summarize e = refl
scope_eq_sound email_draft_reply email_draft_reply e = refl
scope_eq_sound email_modify_text email_modify_text e = refl
scope_eq_sound email_content_egress email_content_egress e = refl
scope_eq_sound _ _ e = absurd (cc)

scope_eq_self : (a : ConsentScope) → scope_eq a a ≡ true
scope_eq_self email_summarize = refl
scope_eq_self email_draft_reply = refl
scope_eq_self email_modify_text = refl
scope_eq_self email_content_egress = refl

every-append :
    {A : Type 0} (p : A → Bool) (xs : List A) (y : A) → every p (xs ++ y ∷ []) ≡ (every p xs && p y)
unfolding every
every-append p [] y = ground arith
every-append p (x ∷ xs) y = ground (arith, every-append p xs y)

every-find :
    {A : Type 0} (p q : A → Bool) (xs : List A) {r : A}
    → every p xs ≡ true
    → find q xs ≡ some r
    → p r ≡ true
unfolding every find
every-find p q [] h e = absurd (cc)
every-find p q (x ∷ xs) h e = elim (Bool-cases (q x)) [
  | inl t ↦ ground (arith, t)
  | inr t ↦ every-find p q xs (ground (arith, h)) (rw t at e)
]

-- A scope that is listed passes a test that all listed scopes pass.
includes-every :
    (p : ConsentScope → Bool) (xs : List ConsentScope) (m : ConsentScope)
    → includes xs m ≡ true
    → every p xs ≡ true
    → p m ≡ true
includes-every p xs m i h = elim (Option-cases (find (scope_eq m) xs)) [
  | inl missing ↦ absurd (ground (arith, missing, i))
  | inr (r, found) ↦
      subst (λ k. p k ≡ true) (sym (scope_eq_sound m r (find_holds (scope_eq m) xs found)))
        (every-find p (scope_eq m) xs h found)
]

-- The consent scope that a required scope maps to passes the test.
abbrev pub Maps : (ConsentScope → Bool) → String → Type 0
Maps p scope = (m : ConsentScope) × (consent_scope_for scope ≡ some m) × (p m ≡ true)

add-every :
    (p : ConsentScope → Bool) (acc : List ConsentScope) (m : ConsentScope)
    → every p (if includes acc m then acc else acc ++ m ∷ []) ≡ (every p acc && p m)
add-every p acc m = elim (Bool-cases (includes acc m)) [
  | inr new ↦ rw new (every-append p acc m)
  | inl old ↦ elim (Bool-cases (every p acc)) [
    | inl h ↦ ground (arith, old, h, includes-every p acc m old h)
    | inr h ↦ ground (arith, old, h)
  ]
]

needed-Maps :
    (p : ConsentScope → Bool) (scopes : List String) (acc needed : List ConsentScope)
    → needed_scopes scopes acc ≡ some needed
    → every p needed ≡ true
    → (every p acc ≡ true) × All (Maps p) scopes
unfolding needed_scopes
needed-Maps p [] acc needed e h = (ground (arith, e, h), tt)
needed-Maps p (scope ∷ scopes) acc needed e h = elim (Option-cases (consent_scope_for scope)) [
  | inl unmapped ↦ absurd (ground (arith, unmapped, e))
  | inr (m, mapped) ↦
      let (both, rest) =
        needed-Maps p scopes (if includes acc m then acc else acc ++ m ∷ []) needed
          (ground (arith, e, mapped)) h in
      (
        ground (arith, add-every p acc m, both),
        ((m, mapped, ground (arith, add-every p acc m, both)), rest),
      )
]

Maps-needed :
    (p : ConsentScope → Bool) (scopes : List String) (acc : List ConsentScope)
    → every p acc ≡ true
    → All (Maps p) scopes
    → (needed : List ConsentScope) × (needed_scopes scopes acc ≡ some needed)
      × (every p needed ≡ true)
unfolding needed_scopes
Maps-needed p [] acc h all = (acc, refl, h)
Maps-needed p (scope ∷ scopes) acc h ((m, e, pm), all) =
    let more = if includes acc m then acc else acc ++ m ∷ [] in
    let (needed, f, k) = Maps-needed p scopes more (ground (arith, add-every p acc m, h, pm)) all in
    (needed, ground (arith, e, f), k)

-- The user has granted the agent, by a grant that is not revoked, what each required scope maps to.
pub record Granted (user_id client_id : Key) (required : List String) (s : Store) : Type 0 where
  pub row : Grant
  pub found : find (is_grant user_id client_id) s.grants ≡ some row
  pub unrevoked : row.revoked_at ≡ none
  pub scopes : All (Maps (includes row.scopes)) required

-- The client is an active AI agent.
pub record ActiveAgent (client_id : Key) (s : Store) : Type 0 where
  pub client : Client
  pub known : find (is_client client_id) s.clients ≡ some client
  pub agent : is_ai_agent client.client_type ≡ true
  pub enabled : client.is_active ≡ true

check_scopes-Granted :
    (user_id client_id : Key) (scope : String) (rest : List String) (s : Store)
    → check_scopes user_id client_id (scope ∷ rest) s ≡ allowed
      ↔ Granted user_id client_id (scope ∷ rest) s
unfolding every
check_scopes-Granted user_id client_id scope rest s = (
  λ e. elim (Option-cases (needed_scopes (scope ∷ rest) [])) [
    | inl unmapped ↦ absurd (ground (arith, unmapped, e))
    | inr (needed, eq) ↦ elim (Option-cases (find (is_grant user_id client_id) s.grants)) [
      | inl missing ↦ absurd (ground (arith, eq, missing, e))
      | inr (g, found) ↦ elim (Option-cases g.revoked_at) [
        | inr (t, gone) ↦ absurd (ground (arith, eq, found, gone, e))
        | inl here ↦
            let all : every (includes g.scopes) needed ≡ true =
              ground (arith, eq, found, here, e) in
            record {
              row = g;
              found = found;
              unrevoked = here;
              scopes = (needed-Maps (includes g.scopes) (scope ∷ rest) [] needed eq all).1;
            }
      ]
    ]
  ],
  λ h.
      let (needed, eq, all) = Maps-needed (includes h.row.scopes) (scope ∷ rest) [] refl h.scopes in
      ground (arith, eq, h.found, h.unrevoked, all),
)

check_client-allowed :
    (user_id : Key) (c : Client) (required : List String) (s : Store)
    → check_client user_id c required s ≡ allowed
    → (is_ai_agent c.client_type ≡ true)
      × (c.is_active ≡ true)
      × (check_scopes user_id c.client_id required s ≡ allowed)
check_client-allowed user_id c required s e = elim (Bool-cases (is_ai_agent c.client_type)) [
  | inr other ↦ absurd (ground (arith, other, e))
  | inl agent ↦ elim (Bool-cases c.is_active) [
    | inr off ↦ absurd (ground (arith, agent, off, e))
    | inl on ↦ (agent, on, ground (arith, agent, on, e))
  ]
]

-- An agent may act for a user on something that requires a scope exactly when it is an active AI
-- agent and the user has granted it, by a grant that is not revoked, the consent scope of every
-- required scope. A scope with no consent scope is refused.
pub assert_consent-Granted :
    (user_id client_id : Key) (scope : String) (rest : List String) (s : Store)
    → assert_consent user_id (some client_id) (scope ∷ rest) s ≡ allowed
      ↔ ActiveAgent client_id s × Granted user_id client_id (scope ∷ rest) s
unfolding assert_consent
assert_consent-Granted user_id client_id scope rest s = (
  λ e. elim (Option-cases (find (is_client client_id) s.clients)) [
    | inl missing ↦ absurd (ground (arith, missing, e))
    | inr (c, found) ↦
        let (agent, on, scopes) =
          check_client-allowed user_id c (scope ∷ rest) s (ground (arith, found, e)) in
        let same : c.client_id ≡ client_id =
          ground (
            arith,
            find_holds (is_client client_id) s.clients found,
            ==_iff c.client_id client_id,
          ) in
        (
          record { client = c; known = found; agent = agent; enabled = on },
          (check_scopes-Granted user_id client_id scope rest s).0
              (subst (λ k. check_scopes user_id k (scope ∷ rest) s ≡ allowed) same scopes),
        )
  ],
  λ (a, g).
      let same : a.client.client_id ≡ client_id = ground (
        arith,
        find_holds (is_client client_id) s.clients a.known,
        ==_iff a.client.client_id client_id,
      ) in
      let scopes =
        subst (λ k. check_scopes user_id k (scope ∷ rest) s ≡ allowed) (sym same)
          ((check_scopes-Granted user_id client_id scope rest s).1 g) in
      ground (arith, a.known, a.agent, a.enabled, scopes),
)
