-- ===== src/Plan.antt =====
-- internal/controller/capacityplan_controller.go: the half of the operator that plans.
pub mod Signals
pub mod TopRisks
pub mod Summary
pub mod Changes
pub mod Anomalies
pub mod Budget
pub mod Workload
pub mod Active
pub mod Insight
pub mod Digest
pub mod Hash
pub mod Client
pub mod Export
pub mod Reconcile
pub mod Setup
