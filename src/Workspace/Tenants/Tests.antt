-- ===== src/Workspace/Tenants/Tests.antt =====
-- Business workspaces at a concrete input.
use ndy_hub.Common.{none, some, [], ◌∷◌, ◌≡◌, refl}
use ndy_hub.Common.Handler.{ok, err}
use ndy_hub.Common.Table.{find, update, insert}
use ndy_hub.Workspace.{Actor}
use ndy_hub.Workspace.Tenants.{
  Store, business, new_space, self_review, create_request, get_pending, allocate, approve,
  get_or_create_personal_workspace, personal,
}
use ndy_hub.Workspace.Tenants.Business.{Opened, approve-Opened}

abbrev author : Actor
author = record { id = 1; ndy_id = 10 }

abbrev reviewer : Actor
reviewer = record { id = 2; ndy_id = 20 }

abbrev known : Store
known = record {
  users = record { id = 1; name = 7; default_workspace_id = none } ∷ [];
  spaces = [];
  memberships = [];
  requests = [];
}

abbrev asked : Store
asked = (create_request 5 author (some 30) none known).1

own_request_refused : (approve 6 7 (8 ∷ []) author 5 none 1000 asked).0 ≡ err self_review
unfolding create_request approve get_pending allocate find insert
own_request_refused = refl

personal_workspace :
    (get_or_create_personal_workspace 40 41 1 known).0 ≡ ok (new_space 40 personal 7 1 none)
unfolding get_or_create_personal_workspace find insert
personal_workspace = refl

approve-Opened_example :
    Opened 6 7 5 reviewer asked
      (new_space 6 business 30 1 (some 8))
      (approve 6 7 (8 ∷ []) reviewer 5 none 1000 asked).1
unfolding create_request approve get_pending allocate find update insert
approve-Opened_example =
    approve-Opened 6 7 (8 ∷ []) reviewer 5 none 1000 asked (new_space 6 business 30 1 (some 8)) refl
