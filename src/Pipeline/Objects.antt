-- ===== src/Pipeline/Objects.antt =====
-- The objects of ocm-controller that a pipeline creates: localizations and configurations.
use mpas_product_controller.Base.{ℕ, String, false, [], Option, none, some, ◌<>◌}
use mpas_product_controller.Api.{ObjectMeta, ResourceReference, ProductDeploymentPipeline}

pub record ObjectReference : Type 0 where
  pub kind : String
  pub name : String
  pub namespace : String
  pub resource_ref : Option ResourceReference

pub record ConfigMapSource : Type 0 where
  pub source_ref : String
  pub key : String
  pub sub_path : String

-- ocmv1alpha1.MutationSpec. `config_ref` and `values_from` are pointers; a ValuesSource holds the
-- one pointer that the controller reads.
pub record MutationSpec : Type 0 where
  pub interval : ℕ
  pub source_ref : ObjectReference
  pub config_ref : Option ObjectReference
  pub values_from : Option (Option ConfigMapSource)

-- A Localization or a Configuration; `snapshot_name` stands in the status.
pub record Mutation : Type 0 where
  pub meta : ObjectMeta
  pub spec : MutationSpec
  pub snapshot_name : String

abbrev pub named : String → ProductDeploymentPipeline → ObjectMeta
named suffix obj = record {
  name = obj.meta.name <> suffix;
  namespace = obj.meta.namespace;
  labels = [];
  annotations = [];
  owners = [];
  generation = 0;
  created = false;
  deleting = false;
}

-- The reference to a resource of the pipeline's component version.
abbrev pub component_resource : ProductDeploymentPipeline → ResourceReference → ObjectReference
component_resource obj resource = record {
  kind = "ComponentVersion";
  name = obj.spec.component_version_ref;
  namespace = obj.meta.namespace;
  resource_ref = some resource;
}

-- The zero value of MutationSpec.
abbrev pub zero_spec : MutationSpec
zero_spec = record {
  interval = 0;
  source_ref = record { kind = ""; name = ""; namespace = ""; resource_ref = none };
  config_ref = none;
  values_from = none;
}
