-- ===== src/Api/Generator.antt =====
-- api/v1alpha1/productdeploymentgenerator_types.go and productdescription_types.go
use mpas_product_controller.Base.{ℕ, String, Option, List}
use mpas_product_controller.Kube.Errors.{Key}
use mpas_product_controller.Kube.Conditions.{Condition}
use mpas_product_controller.Api.Meta.{ObjectMeta, ResourceReference}
use mpas_product_controller.Api.Targets.{TargetRole}

pub record ProductDeploymentGeneratorSpec : Type 0 where
  pub interval : ℕ
  pub subscription_ref : Key
  pub repository_ref : Option String
  pub service_account_name : String

pub record ProductDeploymentGeneratorStatus : Type 0 where
  pub observed_generation : ℕ
  pub conditions : List Condition
  pub latest_snapshot_digest : String
  pub snapshot_name : String
  pub last_reconciled_version : String

pub record ProductDeploymentGenerator : Type 0 where
  pub meta : ObjectMeta
  pub spec : ProductDeploymentGeneratorSpec
  pub status : ProductDeploymentGeneratorStatus

-- TargetRoles: a target role with a name.
pub record NamedRole : Type 0 where
  pub name : String
  pub target_role : TargetRole

pub record DescriptionPipeline : Type 0 where
  pub name : String
  pub source : ResourceReference
  pub target_role_name : String
  pub localization : ResourceReference
  pub rules : ResourceReference
  pub schema : ResourceReference

pub record ProductDescription : Type 0 where
  pub name : String
  pub description : String
  pub pipelines : List DescriptionPipeline
  pub target_roles : List NamedRole
