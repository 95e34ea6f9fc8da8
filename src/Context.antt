-- ===== src/Context.antt =====
-- The providers of frontend/src/context: the selected cluster, the dialogs and the toasts.
pub mod Clusters
pub mod Dialogs
pub mod Toasts
