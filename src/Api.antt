-- ===== src/Api.antt =====
-- The custom resources of api/v1alpha1: one child for the metadata, and one for each group of kinds.
mod Meta
mod Targets
mod Deployment
mod Generator
mod Validations
pub mod Reasons
pub use Meta.*
pub use Targets.*
pub use Deployment.*
pub use Generator.*
pub use Validations.*
