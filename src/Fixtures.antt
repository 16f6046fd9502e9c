-- ===== src/Fixtures.antt =====
-- Objects that the tests and the witnesses share.
use mpas_product_controller.Base.{String, true, false, [], some, none}
use mpas_product_controller.Kube.Errors.{Key}
use mpas_product_controller.Api.{
  ObjectMeta, OwnerReference, LabelSelector, ResourceReference, Target, TargetRole,
  ProductDeploymentPipeline,
}

abbrev pub meta : String → ObjectMeta
meta name = record {
  name = name;
  namespace = "project";
  labels = [];
  annotations = [];
  owners = [];
  generation = 1;
  created = true;
  deleting = false;
}

abbrev pub selector : LabelSelector
selector = record { match_labels = []; match_expressions = [] }

abbrev pub role : TargetRole
role = record { type = "kubernetes"; selector = selector }

abbrev pub target : String → String → Target
target name type = record {
  meta = meta name;
  spec = record {
    type = type;
    access = none;
    interval = 0;
    service_account_name = "";
    secrets_selector = none;
  };
  status = record { observed_generation = 0; conditions = [] };
}

abbrev pub no_resource : ResourceReference
no_resource = record { name = ""; version = ""; reference_path = [] }

abbrev pub ref : Key
ref = record { name = "snap"; namespace = "project" }

abbrev pub key : Key
key = record { name = "web"; namespace = "project" }

abbrev pub pipeline : ProductDeploymentPipeline
pipeline = record {
  meta = meta "web";
  spec = record {
    component_version_ref = "";
    resource = no_resource;
    localization = no_resource;
    configuration = record { rules = no_resource };
    target_role = role;
    config_map_ref = "";
    target_ref = record { name = ""; namespace = "" };
  };
  status = record {
    observed_generation = 0;
    conditions = [];
    selected_target_ref = none;
    snapshot_ref = some ref;
  };
}

abbrev pub resource : String → ResourceReference
resource name = record { name = name; version = "1.0.0"; reference_path = [] }

abbrev pub owner : String → String → OwnerReference
owner kind name = record { api_version = "v1alpha1"; kind = kind; name = name; controller = true }
