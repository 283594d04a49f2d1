-- ===== src/Examples.antt =====
-- The theorems applied to concrete inputs.
pub mod World
pub mod Stack
mod Handlers
mod PushgatewayRun
mod KubeStateMetricsRun
mod NodeExporterRun
mod AlertManagerRun
mod PrometheusRun
mod Cycle
mod Pure
pub mod Renames
pub mod Rules
mod RulesRun
mod VmSingleRun
mod VmAgentRun
mod VmAlertRun
mod VmAlertManagerRun
mod VmAuthRun
mod VmClusterRun
mod PrometheusOperatorRun
mod GoalsRun
mod Version
