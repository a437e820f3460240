-- ===== src/Admin.antt =====
-- Administration of users (apps/api/src/admin).
pub mod RoleChange
