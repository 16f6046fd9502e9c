-- ===== src/Kube.antt =====
-- What the controllers take from Kubernetes and from Go.
pub mod Errors
pub mod Action
pub mod Conditions
pub mod Sample
pub mod Store
pub mod Objects
