-- ===== src/Victoriametrics.antt =====
-- controllers/victoriametrics: one module for each reconciler of the stack.
pub mod VmSingle
pub mod VmAgent
pub mod VmAlert
pub mod VmAlertManager
pub mod VmAuth
pub mod VmCluster
pub mod VmUser
