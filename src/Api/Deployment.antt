-- ===== src/Api/Deployment.antt =====
-- api/v1alpha1/productdeployment_types.go and productdeploymentpipeline_types.go
use mpas_product_controller.Base.{
  ℕ, ◌≡◌, String, Bool, true, false, ◌||◌, Option, List, eq_refl, eq_iff, arith, ◌!=◌,
  if◌then◌else◌, length, nat_eq,
}
use mpas_product_controller.Kube.Errors.{Key}
use mpas_product_controller.Kube.Conditions.{Condition}
use mpas_product_controller.Api.Meta.{ObjectMeta, ResourceReference, Signature, Component}
use mpas_product_controller.Api.Targets.{TargetRole}

abbrev pub product_deployment_name_key : String
product_deployment_name_key = "product-deployment-name"

abbrev pub product_deployment_kind : String
product_deployment_kind = "ProductDeployment"

abbrev pub product_deployment_owner_label_key : String
product_deployment_owner_label_key = "mpas.ocm.system/product-deployment"

-- `GroupVersion.String()`
abbrev pub group_version : String
group_version = "mpas.ocm.software/v1alpha1"

-- Configuration holds its one field, the rules.
pub record Configuration : Type 0 where
  pub rules : ResourceReference

pub record Pipeline : Type 0 where
  pub name : String
  pub resource : ResourceReference
  pub localization : ResourceReference
  pub configuration : Configuration
  pub target_role : TargetRole

pub record ProductDeploymentSpec : Type 0 where
  pub component : Component
  pub pipelines : List Pipeline
  pub service_account_name : String
  pub interval : ℕ
  pub schema : String
  pub verify : List Signature

pub record ProductDeploymentStatus : Type 0 where
  pub observed_generation : ℕ
  pub conditions : List Condition
  pub active_pipelines : List String

pub record ProductDeployment : Type 0 where
  pub meta : ObjectMeta
  pub spec : ProductDeploymentSpec
  pub status : ProductDeploymentStatus

abbrev pub is_complete : ProductDeployment → Bool
is_complete d = nat_eq (length d.status.active_pipelines) 0

pub record ProductDeploymentPipelineSpec : Type 0 where
  pub component_version_ref : String
  pub resource : ResourceReference
  pub localization : ResourceReference
  pub configuration : Configuration
  pub target_role : TargetRole
  pub config_map_ref : String
  pub target_ref : Key

pub record ProductDeploymentPipelineStatus : Type 0 where
  pub observed_generation : ℕ
  pub conditions : List Condition
  pub selected_target_ref : Option Key
  pub snapshot_ref : Option Key

pub record ProductDeploymentPipeline : Type 0 where
  pub meta : ObjectMeta
  pub spec : ProductDeploymentPipelineSpec
  pub status : ProductDeploymentPipelineStatus

abbrev differs : ResourceReference → ResourceReference → Bool
differs a b = a.name != b.name || a.version != b.version

-- The method Equals.
unfoldable pub equals : ProductDeploymentPipelineSpec → ProductDeploymentPipelineSpec → Bool
equals own spec =
    if differs own.resource spec.resource
    then false
    else if differs own.localization spec.localization
    then false
    else if differs own.configuration.rules spec.configuration.rules
    then false
    else if own.component_version_ref != spec.component_version_ref
    then false
    else if own.config_map_ref != spec.config_map_ref
    then false
    else true

pub equals_refl : (spec : ProductDeploymentPipelineSpec) → equals spec spec ≡ true
unfolding equals
equals_refl spec = simp eq_refl

-- References to one resource, whatever their paths.
abbrev pub IsSame : ResourceReference → ResourceReference → Type 0
IsSame a b = (a.name ≡ b.name) × (a.version ≡ b.version)

-- What Equals compares.
pub record Agrees (own spec : ProductDeploymentPipelineSpec) : Type 0 where
  pub resource : IsSame own.resource spec.resource
  pub localization : IsSame own.localization spec.localization
  pub rules : IsSame own.configuration.rules spec.configuration.rules
  pub component_version : own.component_version_ref ≡ spec.component_version_ref
  pub config_map : own.config_map_ref ≡ spec.config_map_ref

differs_IsSame : (a b : ResourceReference) → differs a b ≡ false → IsSame a b
differs_IsSame a b h =
    (ground (arith, eq_iff a.name b.name), ground (arith, eq_iff a.version b.version))

pub equals-Agrees :
    (own spec : ProductDeploymentPipelineSpec) → equals own spec ≡ true → Agrees own spec
unfolding equals
equals-Agrees own spec h = record {
  resource = differs_IsSame own.resource spec.resource (ground arith);
  localization = differs_IsSame own.localization spec.localization (ground arith);
  rules = differs_IsSame own.configuration.rules spec.configuration.rules (ground arith);
  component_version = ground (arith, eq_iff own.component_version_ref spec.component_version_ref);
  config_map = ground (arith, eq_iff own.config_map_ref spec.config_map_ref);
}
