-- ===== src/Auth.antt =====
-- src/modules/auth: the roles and the outlet scope that they give.
pub mod Roles
