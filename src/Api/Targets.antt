-- ===== src/Api/Targets.antt =====
-- api/v1alpha1/target_types.go and kubernetes_access_type.go
use mpas_product_controller.Base.{ℕ, String, Option, List}
use mpas_product_controller.Kube.Errors.{Key}
use mpas_product_controller.Kube.Conditions.{Condition}
use mpas_product_controller.Api.Meta.{ObjectMeta, LabelSelector}

abbrev pub TargetType : Type 0
TargetType = String

abbrev pub kubernetes : TargetType
kubernetes = "kubernetes"

-- `access` is the raw JSON, `none` for a nil pointer.
pub record TargetSpec : Type 0 where
  pub type : TargetType
  pub access : Option String
  pub interval : ℕ
  pub service_account_name : String
  pub secrets_selector : Option LabelSelector

pub record TargetStatus : Type 0 where
  pub observed_generation : ℕ
  pub conditions : List Condition

pub record Target : Type 0 where
  pub meta : ObjectMeta
  pub spec : TargetSpec
  pub status : TargetStatus

pub record TargetRole : Type 0 where
  pub type : TargetType
  pub selector : LabelSelector

pub record KubernetesAccess : Type 0 where
  pub secret_ref : Option Key
  pub target_namespace : String
