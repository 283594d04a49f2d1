-- ===== src/Controller.antt =====
-- The controller of the custom resource.
pub mod Conditions
pub mod Reconcile
