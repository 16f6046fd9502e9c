-- ===== src/Deployment/Tests.antt =====
-- A product deployment controller, tests and witnesses.
use mpas_product_controller.Base.{String, ◌≡◌, refl, true, false, ◌*◌, [], ◌∷◌, some, none}
use mpas_product_controller.Kube.Errors.{after, second}
use mpas_product_controller.Kube.Action.{Session, ◌>>=◌, done}
use mpas_product_controller.Kube.Sample.{empty_store, sample}
use mpas_product_controller.Kube.Store.{create_or_update}
use mpas_product_controller.Api.{Pipeline, ProductDeployment}
use mpas_product_controller.Fixtures.{meta, resource, role, key, no_resource, pipeline}
use mpas_product_controller.Project.{Project, project_named, project_from_namespace}
use mpas_product_controller.Deployment.Env.{Call, Env, ConfigMap}
use mpas_product_controller.Deployment.ConfigMaps.{
  config_name, delete_all, create_config_map, generate_config_map, merged_values, values_config_map,
}
use mpas_product_controller.Deployment.Pipelines.{create_pipelines, create_pipeline, adopt}
use mpas_product_controller.Deployment.Reconcile.{
  pin, create_or_update_component_version, failed, run_pipelines, reconcile_object, patch_status,
  process, after_get, reconcile,
}
use mpas_product_controller.Deployment.Cleanup.{IsCurrent, generate_config_map-IsCurrent}
use mpas_product_controller.Deployment.Values.{IsMerged, values_config_map-IsMerged}

abbrev web : Pipeline
web = record {
  name = "web";
  resource = resource "manifests";
  localization = no_resource;
  configuration = record { rules = resource "rules" };
  target_role = role;
}

abbrev api : Pipeline
api = record {
  name = "api";
  resource = resource "api";
  localization = no_resource;
  configuration = record { rules = resource "rules" };
  target_role = role;
}

abbrev deployment : ProductDeployment
deployment = record {
  meta = meta "shop";
  spec = record {
    component = record { name = "c"; version = "1.0.0"; registry_url = "r" };
    pipelines = web ∷ api ∷ [];
    service_account_name = "";
    interval = 10 * second;
    schema = "";
    verify = [];
  };
  status = record { observed_generation = 1; conditions = []; active_pipelines = [] };
}

abbrev project : Project
project = record {
  conditions = [];
  inventory = none;
  repository_ref = none;
  commit_template = none;
  default_branch = "main";
}

-- A config map made of other values.
abbrev old : ConfigMap
old = record { meta = meta "shop-values-00000000"; values = "old" }

-- The cluster has the pipeline `web`, and the config map `old`.
abbrev env : Env
env = record {
  conditions = sample;
  is_not_found = λ e. false;
  mpas_system_namespace = "mpas-system";
  projects = record {
    project_key = "project";
    reads_namespace = Call.get_namespace;
    reads_project = Call.get_project;
    get_namespace = λ calls n. done (("project", "shop") ∷ []);
    get_project = λ calls k. done project;
  };
  get_deployment = λ calls k. done deployment;
  set_owner = λ o m. done m;
  set_controller = λ o m. done m;
  component_versions = empty_store;
  fetch_config = λ calls n p. done (some "config");
  new_file = λ n t. done tt;
  validate = λ c s. done tt;
  merge = λ c s. done "merged";
  yaml = λ v. done "new";
  sha1_hex = λ v. "c2a6b03f190dfb2b4aa91f8af8d477a9bc3401dc";
  list_config_maps = λ calls k. done (old ∷ []);
  create_config_map = λ calls cm. done tt;
  delete_config_map = λ calls cm. done tt;
  list_pipelines = λ calls k. done (pipeline ∷ []);
  pipelines = empty_store;
  jitter = λ d. d;
  update_status = λ calls d. done tt;
}

abbrev start : Session Call ProductDeployment
start = record { obj = deployment; calls = [] }

config_map_renewed :
    (generate_config_map env deployment "new" start).0 ≡ done ("shop-values-c2a6b03f", true)
unfolding generate_config_map create_config_map delete_all ◌>>=◌
config_map_renewed = refl

-- The whole method: a new config map, so both pipelines are written.
run_succeeds : (reconcile env key start).0 ≡ done (after (10 * second))
unfolding reconcile merged_values after_get process patch_status reconcile_object run_pipelines
    create_or_update_component_version failed values_config_map generate_config_map
    create_config_map delete_all create_pipelines create_pipeline create_or_update adopt pin
    project_from_namespace project_named ◌>>=◌
run_succeeds = refl

generate_config_map-IsCurrent_example :
    (config_name env deployment "new" ≡ config_name env deployment "new")
    × (true ≡ true)
    × IsCurrent env deployment "new"
        (old ∷ [])
        true
        []
        (generate_config_map env deployment "new" start).1.calls
generate_config_map-IsCurrent_example =
    generate_config_map-IsCurrent env deployment "new" (old ∷ []) start
      (config_name env deployment "new") true refl config_map_renewed

config_map_written :
    (values_config_map env deployment project start).0 ≡ done ("shop-values-c2a6b03f", true)
unfolding values_config_map merged_values generate_config_map create_config_map delete_all ◌>>=◌
config_map_written = refl

values_config_map-IsMerged_example :
    (values : String) × IsMerged env deployment project [] values
    × ((generate_config_map env deployment values (merged_values env deployment project start).1).0
        ≡ done ("shop-values-c2a6b03f", true))
values_config_map-IsMerged_example =
    values_config_map-IsMerged env deployment project start ("shop-values-c2a6b03f", true)
      config_map_written
