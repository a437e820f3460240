-- ===== src/Workspace/Tenants/Personal.antt =====
-- A user gets one personal workspace.
use ndy_hub.Common.{Key, none, some, List, Option-cases, ==_iff, ◌≡◌, refl, sym, inl, inr, arith}
use ndy_hub.Common.Handler.{ok}
use ndy_hub.Common.Table.{find}
use ndy_hub.Common.Table.Laws.{find_holds, find-update, find-insert}
use mathlib.Core.Path.{subst}
use ndy_hub.Workspace.Tenants.{
  Space, User, Store, personal, is_user, is_space, owns_personal, new_space, set_default,
  default_space, owned_space, get_or_create_personal_workspace,
}

-- The user is there and its default workspace is the one given.
record Settled (user_id : Key) (w : Space) (t : Store) : Type 0 where
  user : User
  found : find (is_user user_id) t.users ≡ some user
  settled : default_space user t ≡ some w

Settled-same :
    (id membership_id user_id : Key) (w : Space) (t : Store)
    → Settled user_id w t
    → get_or_create_personal_workspace id membership_id user_id t ≡ (ok w, t)
unfolding get_or_create_personal_workspace
Settled-same id membership_id user_id w t h = ground (arith, h.found, h.settled)

find-set_default :
    (user_id id : Key) (users : List User) {u : User}
    → find (is_user user_id) users ≡ some u
    → find (is_user user_id) (set_default u.id id users)
      ≡ some (record u { default_workspace_id = some id })
find-set_default user_id id users {u} found = ground (
  arith,
  found,
  ==_iff u.id u.id,
  find-update (is_user user_id) (is_user u.id) (λ v. record v { default_workspace_id = some id })
      users (λ v. refl),
)

-- The workspace that a membership owns is found by its own id.
owned-found :
    (user_id : Key) (s : Store) {w : Space}
    → owned_space user_id s ≡ some w
    → find (is_space w.id) s.spaces ≡ some w
owned-found user_id s {w} e =
    elim (Option-cases (find (owns_personal user_id s.spaces) s.memberships)) [
      | inl missing ↦ absurd (ground (arith, e, missing))
      | inr (m, found) ↦
          let there : find (is_space m.workspace_id) s.spaces ≡ some w = ground (arith, e, found) in
          let same : w.id ≡ m.workspace_id =
            (==_iff w.id m.workspace_id).0 (find_holds (is_space m.workspace_id) s.spaces there) in
          subst (λ k. find (is_space k) s.spaces ≡ some w) (sym same) there
    ]

first-Settled :
    (id membership_id user_id : Key) (s : Store) (w : Space)
    → find (is_space id) s.spaces ≡ none
    → (get_or_create_personal_workspace id membership_id user_id s).0 ≡ ok w
    → Settled user_id w (get_or_create_personal_workspace id membership_id user_id s).1
unfolding get_or_create_personal_workspace
first-Settled id membership_id user_id s w new e =
    elim (Option-cases (find (is_user user_id) s.users)) [
      | inl missing ↦ absurd (ground (arith, e, missing))
      | inr (u, found) ↦ elim (Option-cases (default_space u s)) [
        | inr (v, pointed) ↦ record {
          user = u;
          found = ground (arith, found, pointed);
          settled = ground (arith, e, found, pointed);
        }
        | inl unset ↦ elim (Option-cases (owned_space u.id s)) [
          | inr (v, owned) ↦
              let same : v ≡ w = ground (arith, e, found, unset, owned) in
              record {
                user = record u { default_workspace_id = some v.id };
                found =
                    ground
                      (arith, found, unset, owned, find-set_default user_id v.id s.users found);
                settled = ground (arith, found, unset, owned, same, owned-found u.id s owned);
              }
          | inl none_owned ↦
              let n = new_space id personal u.name u.id none in
              record {
                user = record u { default_workspace_id = some id };
                found =
                    ground
                      (arith, found, unset, none_owned, find-set_default user_id id s.users found);
                settled = ground (
                  arith,
                  e,
                  found,
                  unset,
                  none_owned,
                  new,
                  ==_iff id id,
                  find-insert (is_space id) n s.spaces,
                );
              }
        ]
      ]
    ]

-- Asking for the personal workspace again, at any time and with other drawn ids, gives the same
-- workspace and changes nothing. The id first drawn is new.
pub get_or_create_personal_workspace_twice :
    (id membership_id id' membership_id' user_id : Key) (s : Store) (w : Space)
    → find (is_space id) s.spaces ≡ none
    → (get_or_create_personal_workspace id membership_id user_id s).0 ≡ ok w
    → let t = (get_or_create_personal_workspace id membership_id user_id s).1 in
      get_or_create_personal_workspace id' membership_id' user_id t ≡ (ok w, t)
get_or_create_personal_workspace_twice id membership_id id' membership_id' user_id s w new e =
    Settled-same id' membership_id' user_id w
      (get_or_create_personal_workspace id membership_id user_id s).1
      (first-Settled id membership_id user_id s w new e)
