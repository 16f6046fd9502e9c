-- ===== src/Scheduler.antt =====
-- The pipeline scheduler: controllers/productdeploymentpipeline_scheduler.go, and target selection,
-- controllers/select_target.go.
pub mod Env
pub mod Select
pub mod Reconcile
pub mod Selection
pub mod Gates
pub mod Report
mod Tests
