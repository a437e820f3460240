-- ===== src/Admin/RoleChange/Tests.antt =====
-- The theorems on role changes at concrete inputs.
use ndy_hub.Common.{none, List, [], ◌∷◌, ◌≡◌, refl}
use ndy_hub.Common.Handler.{err}
use ndy_hub.Common.Table.{find}
use ndy_hub.Common.Table.Laws.{All-find}
use ndy_hub.Common.Chars.{codes}
use ndy_hub.Identity.{format_ndy_id, ndy_id_type_for_role, ndy_id_type_for_user}
use ndy_hub.Access.{Role, founder, super_admin, support}
use ndy_hub.Access
use ndy_hub.Admin.RoleChange.{
  User, is_user, Request, approved, Store, Actor, already_resolved, lacks_authority, new_request,
  resolve, reviewable, approve, reject,
}
use ndy_hub.Admin.RoleChange.DualControl.{
  AllRequests, Call, creates, approves, run, run_all, two_persons,
}
use ndy_hub.Admin.RoleChange.Approval.{
  Promoted, AllSpelled, IsSpelled, approve-Promoted, ids_follow_roles,
}
use ndy_hub.Admin.RoleChange.Resolution.{decided_once}

abbrev boss : User
boss = record {
  id = 1;
  ndy_id = codes "NDY-FND-000001";
  ndy_core_id = codes "000001";
  ndy_id_type = none;
  role = founder;
}

abbrev member : User
member = record {
  id = 2;
  ndy_id = codes "NDY-MBR-7K9XQ2";
  ndy_core_id = codes "7K9XQ2";
  ndy_id_type = none;
  role = Access.user;
}

abbrev store : Store
store = record { users = boss ∷ member ∷ []; requests = []; audit_log = [] }

abbrev admin : Actor
admin = record { id = 3; ndy_id = codes "NDY-MBR-222222"; ip = none }

abbrev boss_actor : Actor
boss_actor = record { id = 1; ndy_id = codes "NDY-FND-000001"; ip = none }

-- A Founder asks for a Founder role, tries to approve it, and an admin asks for another role.
abbrev calls : List Call
calls =
    creates 10 boss_actor 2 founder none
    ∷ approves boss_actor 10 none 100
    ∷ creates 11 admin 2 support none
    ∷ approves boss_actor 11 none 200
    ∷ []

store-AllRequests : AllRequests store
unfolding find
store-AllRequests id r e = absurd (cc)

two_persons_example : AllRequests (run_all calls store)
two_persons_example = two_persons calls store store-AllRequests

abbrev asked : Request
asked = new_request 11 admin member support none

abbrev waiting : Store
waiting = record store { requests = asked ∷ [] }

approve-Promoted_example : Promoted waiting (approve boss_actor 11 none 200 waiting).1 boss_actor 11
unfolding approve reviewable lacks_authority find
approve-Promoted_example =
    approve-Promoted waiting boss_actor 11 none 200 (resolve approved boss_actor none 200 asked)
      refl

decided_once_example :
    let t = run_all calls (run (approves boss_actor 11 none 200) waiting) in
    (approve boss_actor 11 none 300 t ≡ (err already_resolved, t))
    × (reject boss_actor 11 none 300 t ≡ (err already_resolved, t))
unfolding approve reviewable lacks_authority find
decided_once_example =
    decided_once waiting 11 (approves boss_actor 11 none 200) calls boss_actor none 300
      (refl, resolve approved boss_actor none 200 asked, refl)

store-AllSpelled : AllSpelled store
unfolding format_ndy_id ndy_id_type_for_user ndy_id_type_for_role
store-AllSpelled id u e = All-find IsSpelled (is_user id) store.users (refl, (refl, tt)) e

ids_follow_roles_example : AllSpelled (run_all calls store)
ids_follow_roles_example = ids_follow_roles calls store store-AllSpelled
