-- ===== src/Deployment.antt =====
-- The product deployment controller: controllers/productdeployment_controller.go.
pub mod Env
pub mod ConfigMaps
pub mod Pipelines
pub mod Reconcile
pub mod Writes
pub mod Cleanup
pub mod Values
pub mod Lost
pub mod Settled
mod Tests
