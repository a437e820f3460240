-- ===== src/Workspace/Tests.antt =====
-- The theorems on invites at concrete inputs.
use ndy_hub.Common.{Key, none, [], ◌∷◌, ◌+◌, ◌≡◌, refl}
use ndy_hub.Common.Handler.{err}
use ndy_hub.Common.Table.{find}
use ndy_hub.Workspace.{
  member, pending, User, Invite, Store, already_resolved, new_membership, accept,
}
use ndy_hub.Workspace.Invites.{accept_once}

abbrev hash : Key → Key
hash token = token + 100

abbrev alice : User
alice = record { id = 1; email = 11 }

abbrev invite : Invite
invite = record {
  id = 20;
  workspace_id = 30;
  invited_email = 11;
  invited_role = member;
  invited_department = none;
  invited_by_user_id = 2;
  invited_by_ndy_id = 12;
  status = pending;
  token_hash = hash 7;
  expires_at = 500;
  resolved_at = none;
}

abbrev store : Store
store = record { users = alice ∷ []; workspaces = 30 ∷ []; invites = invite ∷ []; memberships = [] }

accept_once_example :
    let t = (accept hash 40 1 7 100 store).1 in accept hash 41 1 7 200 t ≡ (err already_resolved, t)
unfolding accept find
accept_once_example = accept_once hash 40 1 7 100 store (new_membership 40 1 invite) 41 1 200 refl
