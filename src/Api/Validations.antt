-- ===== src/Api/Validations.antt =====
-- api/v1alpha1/validation_types.go
use mpas_product_controller.Base.{ℕ, String, Option, List}
use mpas_product_controller.Kube.Errors.{Key}
use mpas_product_controller.Kube.Conditions.{Condition}
use mpas_product_controller.Api.Meta.{ObjectMeta}

pub record ValidationSpec : Type 0 where
  pub schema : String
  pub service_account_name : String
  pub interval : ℕ
  pub sync_ref : Key

abbrev pub failed_validation_outcome : String
failed_validation_outcome = "failed"

abbrev pub success_validation_outcome : String
success_validation_outcome = "success"

pub record ValidationStatus : Type 0 where
  pub observed_generation : ℕ
  pub conditions : List Condition
  pub git_repository_ref : Option Key
  pub last_validated_digest : String
  pub last_validated_digest_outcome : String

pub record Validation : Type 0 where
  pub meta : ObjectMeta
  pub spec : ValidationSpec
  pub status : ValidationStatus
