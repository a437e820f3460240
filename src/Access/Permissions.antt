-- ===== src/Access/Permissions.antt =====
-- Who holds what.
use ndy_hub.Common.{true, false, not, is_some, ◌≡◌, refl, ◌↔◌, arith}
use ndy_hub.Common.Table.{find}
use ndy_hub.Access.{
  Role, user, founder, Permission, manage_users, manage_roles, role_has_permission, role_eq,
  assignable_by_super_admin, founder_only_assignable,
}

-- A Founder holds every permission.
pub founder_is_superset : (p : Permission) → role_has_permission founder p ≡ true
unfolding role_has_permission find
founder_is_superset manage_users = refl
founder_is_superset _ = refl

-- A role that a Super Admin may assign is exactly one that is not reserved to Founders, and holds
-- neither the permission to change roles nor the one to manage users: a Super Admin cannot make a
-- peer or a superior.
pub assignable_roles_are_lower :
    (role : Role)
    → (is_some (find (role_eq role) assignable_by_super_admin) ≡ not (founder_only_assignable role))
      × ((founder_only_assignable role ≡ false) ↔ (
          (role_has_permission role manage_roles ≡ false)
          × (role_has_permission role manage_users ≡ false)))
unfolding role_has_permission find
assignable_roles_are_lower user = ground arith
assignable_roles_are_lower _ = ground arith
