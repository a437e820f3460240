-- ===== src/Access.antt =====
-- Roles and permissions (apps/api/src/common/permissions.ts) and the roles
-- that are reserved to Founders (apps/api/src/admin/role-change-request.service.ts).
pub mod Permissions
mod Tests
use ndy_hub.Common.{Bool, true, false, List, [], ◌∷◌, is_some}
use ndy_hub.Common.Table.{find}

pub data Role : Type 0 where
  user founder super_admin developer finance support content partners auditor : Role

pub data Permission : Type 0 where
  manage_users manage_roles manage_oauth_clients manage_support_tickets view_audit_log
        view_founder_overview view_financials review_identity_verification manage_qr_codes :
      Permission

abbrev pub permission_eq : Permission → Permission → Bool
permission_eq manage_users manage_users = true
permission_eq manage_roles manage_roles = true
permission_eq manage_oauth_clients manage_oauth_clients = true
permission_eq manage_support_tickets manage_support_tickets = true
permission_eq view_audit_log view_audit_log = true
permission_eq view_founder_overview view_founder_overview = true
permission_eq view_financials view_financials = true
permission_eq review_identity_verification review_identity_verification = true
permission_eq manage_qr_codes manage_qr_codes = true
permission_eq _ _ = false

-- `Object.values(Permission)`
abbrev pub all_permissions : List Permission
all_permissions =
    manage_users ∷ manage_roles ∷ manage_oauth_clients ∷ manage_support_tickets ∷ view_audit_log
    ∷ view_founder_overview ∷ view_financials ∷ review_identity_verification ∷ manage_qr_codes ∷ []

-- `ROLE_PERMISSIONS`
pub role_permissions : Role → List Permission
role_permissions user = []
role_permissions founder = all_permissions
role_permissions super_admin =
    manage_users ∷ manage_roles ∷ manage_oauth_clients ∷ manage_support_tickets ∷ view_audit_log
    ∷ review_identity_verification ∷ manage_qr_codes ∷ []
role_permissions developer = manage_oauth_clients ∷ []
role_permissions finance = view_financials ∷ []
role_permissions support = manage_support_tickets ∷ []
role_permissions content = []
role_permissions partners = []
role_permissions auditor = view_audit_log ∷ []

-- `roleHasPermission`
pub role_has_permission : Role → Permission → Bool
unfolding role_permissions
role_has_permission role permission =
    is_some (find (permission_eq permission) (role_permissions role))

abbrev pub role_eq : Role → Role → Bool
role_eq user user = true
role_eq founder founder = true
role_eq super_admin super_admin = true
role_eq developer developer = true
role_eq finance finance = true
role_eq support support = true
role_eq content content = true
role_eq partners partners = true
role_eq auditor auditor = true
role_eq _ _ = false

-- `ASSIGNABLE_BY_SUPER_ADMIN`
abbrev pub assignable_by_super_admin : List Role
assignable_by_super_admin = user ∷ developer ∷ finance ∷ support ∷ content ∷ partners ∷ auditor ∷ []

-- `FOUNDER_ONLY_ASSIGNABLE`
abbrev pub founder_only_assignable : Role → Bool
founder_only_assignable founder = true
founder_only_assignable super_admin = true
founder_only_assignable _ = false
