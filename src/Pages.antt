-- ===== src/Pages.antt =====
-- The pages of frontend/src/pages: state, handlers, and what is shown.
pub mod Messages
pub mod Topics
pub mod Acls
pub mod Users
pub mod Roles
pub mod Connect
pub mod Clusters
pub mod Brokers
pub mod Consumers
pub mod Schemas
pub mod Audit
pub mod Alerts
pub mod Login
pub mod Profile
