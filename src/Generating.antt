-- ===== src/Generating.antt =====
-- The product deployment generator controller: controllers/productdeploymentgenerator_controller.go.
pub mod Headers
pub mod Env
pub mod Gate
pub mod Pipelines
pub mod Product
pub mod Snapshots
pub mod Syncs
pub mod Reconcile
pub mod Watch
pub mod Gates
pub mod Scheduled
pub mod Stopped
pub mod Made
pub mod Applied
pub mod Written
pub mod Encoded
pub mod Aliased
mod Tests
