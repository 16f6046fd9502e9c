-- ===== src/Validators.antt =====
-- The validators: pkg/validators/validator.go, github/validator.go and gitea/validator.go.
pub mod Hosts
pub mod Chain
pub mod Choice
mod Tests
