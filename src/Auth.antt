-- ===== src/Auth.antt =====
-- Who may do what in the user interface: frontend/src/auth, frontend/src/stores/auth.tsx and the
-- guards of frontend/src/components/rbac.
pub mod Permissions
pub mod Guards
pub mod Session
