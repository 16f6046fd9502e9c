-- ===== src/Pipeline.antt =====
-- The pipeline controller: controllers/productdeploymentpipeline_controller.go.
pub mod Objects
pub mod Env
pub mod Localization
pub mod Configuration
pub mod Reconcile
pub mod Settled
pub mod Pointers
mod Tests
