-- ===== src/Deployer/Objects.antt =====
-- The FluxDeployer that a deployment creates.
use mpas_product_controller.Base.{String, Bool, true, false, [], Option, none, some, ◌<>◌}
use mpas_product_controller.Kube.Errors.{Key}
use mpas_product_controller.Api.{
  ObjectMeta, OwnerReference, KubernetesAccess, ProductDeploymentPipeline,
}

-- ocmv1alpha1.FluxDeployer: `kube_config` is the name of the secret of KubeConfig.
pub record FluxDeployer : Type 0 where
  pub meta : ObjectMeta
  pub source_kind : String
  pub source_name : String
  pub source_namespace : String
  pub prune : Bool
  pub target_namespace : String
  pub kube_config : Option String

abbrev secret_name : Option Key → Option String
secret_name none = none
secret_name (some ref) = some ref.name

unfoldable pub kustomization :
    ProductDeploymentPipeline → KubernetesAccess → OwnerReference → FluxDeployer
kustomization obj access owner = record {
  meta = record {
    name = obj.meta.name <> "-kustomization";
    namespace = obj.meta.namespace;
    labels = [];
    annotations = [];
    owners = [];
    generation = 0;
    created = false;
    deleting = false;
  };
  source_kind = owner.kind;
  source_name = owner.name;
  source_namespace = obj.meta.namespace;
  prune = true;
  target_namespace = access.target_namespace;
  kube_config = secret_name access.secret_ref;
}
