-- ===== src/Targeting.antt =====
-- The target controller: controllers/target_controller.go.
pub mod Env
pub mod Pulls
pub mod Access
pub mod Status
pub mod Reconcile
pub mod Ready
mod Tests
