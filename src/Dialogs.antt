-- ===== src/Dialogs.antt =====
-- The forms of frontend/src/components/dialogs. The flags `isPending` of a form's mutations are set by
-- the library that runs them, and are arguments of the handlers that read them.
pub mod Options
pub mod CreateTopic
pub mod AddUser
pub mod EditUser
pub mod RoleEditor
pub mod AddCluster
pub mod Produce
pub mod Forms
pub mod RoleSets
