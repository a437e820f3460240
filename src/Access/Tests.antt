-- ===== src/Access/Tests.antt =====
-- The theorem on the roles at one role.
