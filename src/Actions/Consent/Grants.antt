-- ===== src/Actions/Consent/Grants.antt =====
-- What granting and revoking do to the next check.
use ndy_hub.Common.{
  Key, Time, true, none, some, List, [], ◌∷◌, ◌++◌, if◌then◌else◌, Bool-cases, Option-cases, ==_iff,
  ◌≡◌, refl, sym, ◌≢◌, inl, inr, arith, String,
}
use ndy_hub.Common.Handler.{ok}
use ndy_hub.Common.Table.{find, insert}
use ndy_hub.Common.Table.Laws.{All, find_holds, find-update, find-insert, All-imp}
use mathlib.Core.Path.{subst}
use ndy_hub.Actions.Consent.{
  ConsentScope, scope_eq, is_ai_agent, Grant, Store, allowed, is_client, is_grant, includes,
  assert_consent, unique_scopes, new_grant, upsert, grant, revoke,
}
use ndy_hub.Actions.Consent.Allowed.{Maps, assert_consent-Granted, scope_eq_sound}

-- Once a grant is revoked, the agent is refused whatever requires a scope.
pub revoke-refused :
    (user_id client_id : Key) (now : Time) (s : Store) (g : Grant) (scope : String)
    (rest : List String)
    → (revoke user_id client_id now s).0 ≡ ok g
    → assert_consent user_id (some client_id) (scope ∷ rest) (revoke user_id client_id now s).1
      ≢ allowed
unfolding revoke
revoke-refused user_id client_id now s g scope rest e a =
    elim (Option-cases (find (is_grant user_id client_id) s.grants)) [
      | inl missing ↦ absurd (ground (arith, missing, e))
      | inr (r, found) ↦ elim (Option-cases r.revoked_at) [
        | inr (t, gone) ↦ absurd (ground (arith, found, gone, e))
        | inl here ↦
            let granted =
              ((assert_consent-Granted user_id client_id scope rest
                  (revoke user_id client_id now s).1).0
                a).1 in
            ground (
              arith,
              found,
              here,
              granted.found,
              granted.unrevoked,
              find-update (is_grant user_id client_id) (is_grant user_id client_id)
                  (λ k. record k { revoked_at = some now }) s.grants (λ x. refl),
              find_holds (is_grant user_id client_id) s.grants found,
            )
      ]
    ]

includes-add :
    (acc : List ConsentScope) (s m : ConsentScope)
    → includes acc m ≡ true
    → includes (if includes acc s then acc else acc ++ s ∷ []) m ≡ true
unfolding insert
includes-add acc s m h = elim (Bool-cases (includes acc s)) [
  | inl old ↦ rw old h
  | inr new ↦ elim (Option-cases (find (scope_eq m) acc)) [
    | inl missing ↦ absurd (ground (arith, missing, h))
    | inr (r, found) ↦ ground (arith, new, found, find-insert (scope_eq m) s acc)
  ]
]

includes-added :
    (acc : List ConsentScope) (s m : ConsentScope)
    → scope_eq m s ≡ true
    → includes (if includes acc s then acc else acc ++ s ∷ []) m ≡ true
unfolding insert
includes-added acc s m h = elim (Bool-cases (includes acc s)) [
  | inl old ↦ rw old (subst (λ k. includes acc k ≡ true) (sym (scope_eq_sound m s h)) old)
  | inr new ↦ elim (Option-cases (find (scope_eq m) acc)) [
    | inl missing ↦ ground (arith, new, missing, h, find-insert (scope_eq m) s acc)
    | inr (r, found) ↦ ground (arith, new, found, find-insert (scope_eq m) s acc)
  ]
]

unique-kept :
    (scopes acc : List ConsentScope) (m : ConsentScope)
    → includes acc m ≡ true
    → includes (unique_scopes acc scopes) m ≡ true
unfolding unique_scopes
unique-kept [] acc m h = h
unique-kept (s ∷ scopes) acc m h =
    unique-kept scopes (if includes acc s then acc else acc ++ s ∷ []) m (includes-add acc s m h)

unique-includes :
    (scopes acc : List ConsentScope) (m : ConsentScope)
    → includes scopes m ≡ true
    → includes (unique_scopes acc scopes) m ≡ true
unfolding unique_scopes find
unique-includes [] acc m h = absurd (cc)
unique-includes (s ∷ scopes) acc m h = elim (Bool-cases (scope_eq m s)) [
  | inl here ↦
      unique-kept scopes (if includes acc s then acc else acc ++ s ∷ []) m
        (includes-added acc s m here)
  | inr there ↦
      unique-includes scopes (if includes acc s then acc else acc ++ s ∷ []) m (rw there at h)
]

upsert-find :
    (user_id client_id : Key) (scopes : List ConsentScope) (now : Time) (grants : List Grant)
    → (row : Grant) × (find
          (is_grant user_id client_id)
          (upsert (new_grant user_id client_id scopes now) grants)
        ≡ some row)
      × (row.scopes ≡ scopes)
      × (row.revoked_at ≡ none)
upsert-find user_id client_id scopes now grants =
    elim (Option-cases (find (is_grant user_id client_id) grants)) [
      | inl missing ↦ (
        new_grant user_id client_id scopes now,
        ground (
          arith,
          missing,
          ==_iff user_id user_id,
          ==_iff client_id client_id,
          find-insert (is_grant user_id client_id) (new_grant user_id client_id scopes now) grants,
        ),
        refl,
        refl,
      )
      | inr (r, found) ↦ (
        record r { scopes = scopes; revoked_at = none; granted_at = now },
        ground (
          arith,
          found,
          find_holds (is_grant user_id client_id) grants found,
          find-update (is_grant user_id client_id) (is_grant user_id client_id)
              (λ k. record k { scopes = scopes; revoked_at = none; granted_at = now }) grants
              (λ x. refl),
        ),
        refl,
        refl,
      )
    ]

-- Once a user has granted an agent, it may act on whatever requires only scopes that map to the
-- ones granted, also where an earlier grant was revoked.
pub grant-allowed :
    (user_id client_id : Key) (scopes : List ConsentScope) (now : Time) (s : Store) (g : Grant)
    (scope : String) (rest : List String)
    → (grant user_id client_id scopes now s).0 ≡ ok g
    → All (Maps (includes scopes)) (scope ∷ rest)
    → assert_consent user_id
        (some client_id)
        (scope ∷ rest)
        (grant user_id client_id scopes now s).1
      ≡ allowed
unfolding grant
grant-allowed user_id client_id scopes now s g scope rest e h =
    elim (Option-cases (find (is_client client_id) s.clients)) [
      | inl missing ↦ absurd (ground (arith, missing, e))
      | inr (c, found) ↦ elim (Bool-cases (is_ai_agent c.client_type)) [
        | inr other ↦ absurd (ground (arith, found, other, e))
        | inl agent ↦ elim (Bool-cases c.is_active) [
          | inr off ↦ absurd (ground (arith, found, agent, off, e))
          | inl on ↦
              let t = record s {
                grants =
                    upsert (new_grant user_id client_id (unique_scopes [] scopes) now) s.grants;
              } in
              let (row, shown, listed, unrevoked) =
                upsert-find user_id client_id (unique_scopes [] scopes) now s.grants in
              let covered : All (Maps (includes row.scopes)) (scope ∷ rest) =
                All-imp (Maps (includes scopes)) (Maps (includes row.scopes)) (scope ∷ rest)
                  (λ sc p. (
                    p.0,
                    p.1,
                    subst (λ k. includes k p.0 ≡ true) (sym listed)
                        (unique-includes scopes [] p.0 p.2),
                  ))
                  h in
              let ok_now = (assert_consent-Granted user_id client_id scope rest t).1 (
                record { client = c; known = found; agent = agent; enabled = on },
                record { row = row; found = shown; unrevoked = unrevoked; scopes = covered },
              ) in
              ground (arith, found, agent, on, ok_now)
        ]
      ]
    ]
