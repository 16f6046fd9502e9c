-- ===== src/Validating.antt =====
-- The validation controller: controllers/validation_controller.go.
pub mod Env
pub mod Tracking
pub mod Gate
pub mod Reconcile
pub mod Once
pub mod Opens
mod Tests
