-- ===== src/Generating/Tests.antt =====
-- A generator of product deployments, tests and witnesses.
use mpas_product_controller.Base.{
  suc, ◌≡◌, refl, ◌↔◌, ◌⊎◌, inl, true, false, ◌==◌, ◌<>◌, ◌*◌, [], ◌∷◌, some, none, map, Contains,
}
use mpas_product_controller.Kube.Errors.{external, wrap, no_requeue, second}
use mpas_product_controller.Kube.Action.{Session, ◌>>=◌, done, fails}
use mpas_product_controller.Kube.Sample.{empty_store, sample}
use mpas_product_controller.Kube.Store.{create_or_update}
use mpas_product_controller.Api.{
  Component, DescriptionPipeline, ProductDescription, ProductDeployment, ProductDeploymentGenerator,
}
use mpas_product_controller.Fixtures.{meta, resource, role, key, no_resource}
use mpas_product_controller.Project.{Project, project_named, project_from_namespace}
use mpas_product_controller.Generating.Headers.{
  Node, Nodes, transform, levels, raised, transform_lem,
}
use mpas_product_controller.Generating.Env.{Call, Env, Subscription}
use mpas_product_controller.Generating.Gate.{is_newer, should_run}
use mpas_product_controller.Generating.Pipelines.{
  create_product_pipeline, create_pipelines, Collected,
}
use mpas_product_controller.Generating.Product.{
  unified, configure, sanitized, write_files, create_product_deployment,
}
use mpas_product_controller.Generating.Snapshots.{write_snapshot, create_snapshot}
use mpas_product_controller.Generating.Syncs.{own_sync, request_sync, create_sync}
use mpas_product_controller.Generating.Reconcile.{
  own_validation, finish, with_component, fetch_component, with_ref, with_project,
  with_subscription, reconcile_object, process, patch_status, reconcile,
}
use mpas_product_controller.Generating.Scheduled.{AllScheduled, create_pipelines-AllScheduled}
use mpas_product_controller.Generating.Gates.{IsNewer, should_run_iff}
use mpas_product_controller.Generating.Watch.{
  marked, request, find_generators, find_generators_unqualified,
}
use mpas_product_controller.Generating.Aliased.{IsEvaluated, create_product_deployment_shared}

abbrev generator : ProductDeploymentGenerator
generator = record {
  meta = meta "shop";
  spec = record {
    interval = 10 * second;
    subscription_ref = key;
    repository_ref = none;
    service_account_name = "account";
  };
  status = record {
    observed_generation = 1;
    conditions = [];
    latest_snapshot_digest = "";
    snapshot_name = "";
    last_reconciled_version = "1.0.0";
  };
}

abbrev component : Component
component = record { name = "c"; version = "2.0.0"; registry_url = "r" }

abbrev subscription : Subscription
subscription = record {
  conditions = sample.mark_ready "" [];
  last_applied_version = "2.0.0";
  signature = [];
  component = component;
}

abbrev waiting : Subscription
waiting = record subscription { conditions = [] }

abbrev web : DescriptionPipeline
web = record {
  name = "web";
  source = resource "manifests";
  target_role_name = "cluster";
  localization = no_resource;
  rules = resource "rules";
  schema = resource "schema";
}

abbrev description : ProductDescription
description = record {
  name = "shop";
  description = "";
  pipelines = web ∷ [];
  target_roles = record { name = "cluster"; target_role = role } ∷ [];
}

abbrev project : Project
project = record {
  conditions = sample.mark_ready "" [];
  inventory = none;
  repository_ref = some (record { name = "repo"; namespace = "mpas-system" });
  commit_template = some (record { name = "n"; email = "e"; message = "m" });
  default_branch = "main";
}

-- One heading of the first level.
abbrev tree : Node
tree = Node.other "document" (Nodes.more (Node.heading 1 Nodes.end) Nodes.end)

abbrev env : Env
env = record {
  conditions = sample;
  is_not_found = λ e. false;
  mpas_system_namespace = "mpas-system";
  projects = record {
    project_key = "project";
    reads_namespace = Call.get_namespace;
    reads_project = Call.get_project;
    get_namespace = λ calls n. done (("project", "shop") ∷ []);
    get_project = λ calls k. done project;
  };
  get_generator = λ calls k. done generator;
  get_subscription = λ calls k. done subscription;
  parse_version = λ v. done v;
  version_equal = λ a b. a == b;
  version_less = λ a b. b == "9.0.0";
  authenticate = λ calls account namespace. done tt;
  open_component = λ calls c. done tt;
  close_component = λ calls. done tt;
  product_description = λ calls. done "description";
  resource_data = λ calls r. done "schema";
  unmarshal = λ t. done description;
  new_file = λ name t. done t;
  comments = λ f. f;
  unify = λ f fs. done f;
  eval_without_private_fields = λ f. done (f <> ", public");
  eval = λ f. done f;
  merge = λ f g. done (f <> g);
  sanitize = λ f. done f;
  validate = λ f g. done tt;
  format = λ f. done f;
  parse_markdown = λ t. tree;
  render_markdown = λ n. done "## Instructions";
  fetch_config = λ calls n p. done none;
  join = λ parts. "path";
  make_temp = λ calls. done "tmp";
  make_dir = λ calls d. done tt;
  create_file = λ calls d. done tt;
  write_file = λ calls p t. done tt;
  remove_all = λ calls d. done tt;
  encode = λ calls d. done tt;
  generate_name = λ calls n. done (n <> "-snapshot");
  write_snapshot = λ calls o d i. done "sha256:1";
  component_name_key = "component-name";
  component_version_key = "component-version";
  sha1_hex = λ v. "0123456789abcdef";
  set_owner = λ o m. done m;
  syncs = empty_store;
  validations = empty_store;
  update_status = λ calls o. done tt;
}

abbrev start : Session Call ProductDeploymentGenerator
start = record { obj = generator; calls = [] }

run_succeeds : (reconcile env key start).0 ≡ done no_requeue
unfolding reconcile is_newer project_named project_from_namespace create_pipelines unified configure
    sanitized write_files write_snapshot create_snapshot own_sync request_sync create_sync
    own_validation finish with_component fetch_component with_ref with_project with_subscription
    reconcile_object process patch_status create_or_update transform ◌>>=◌ should_run
    create_product_deployment create_product_pipeline
run_succeeds = refl

transform_lem_example :
    (levels (transform tree) ≡ map suc (levels tree)) × (raised (transform tree) ≡ tree)
transform_lem_example = transform_lem tree

abbrev collected : Collected
collected = record {
  pipelines =
      record {
        name = "web";
        resource = resource "manifests";
        localization = no_resource;
        configuration = record { rules = resource "rules" };
        target_role = role;
      }
      ∷ [];
  readme = "\n# Configuration instructions for web\n\n## Instructions";
  schema_files = "schema" ∷ [];
}

create_pipelines_done :
    (create_pipelines env description description.pipelines start).0 ≡ done collected
unfolding create_pipelines create_product_pipeline transform ◌>>=◌
create_pipelines_done = refl

create_pipelines-AllScheduled_example :
    AllScheduled description.target_roles description.pipelines collected.pipelines
create_pipelines-AllScheduled_example =
    create_pipelines-AllScheduled env description description.pipelines start collected
      create_pipelines_done

should_run_iff_example : ((should_run env subscription start).0 ≡ done true) ↔ (
    (sample.is_ready subscription.conditions ≡ true)
    × ((start.obj.status.last_reconciled_version ≡ "")
        ⊎ IsNewer env start.obj.status.last_reconciled_version subscription.last_applied_version))
should_run_iff_example = should_run_iff env subscription start

-- The subscription has no condition yet.
abbrev waiting_env : Env
waiting_env = record env { get_subscription = λ calls k. done waiting }

abbrev deployment : ProductDeployment
deployment = record {
  meta = record (meta "shop") { generation = 0; created = false };
  spec = record {
    component = component;
    pipelines = collected.pipelines;
    service_account_name = "account";
    interval = 10 * second;
    schema = "schema, public";
    verify = [];
  };
  status = record { observed_generation = 0; conditions = []; active_pipelines = [] };
}

create_product_deployment_done :
    (create_product_deployment env generator description subscription "dir" project start).0
    ≡ done (deployment, "schema, public")
unfolding create_pipelines unified configure sanitized write_files transform ◌>>=◌
    create_product_deployment create_product_pipeline
create_product_deployment_done = refl

create_product_deployment_shared_example :
    IsEvaluated env description start "schema, public"
    × Contains
        (Call.write_file "path" "schema, public")
        (create_product_deployment env generator description subscription "dir" project
          start).1.calls
create_product_deployment_shared_example =
    create_product_deployment_shared env generator description subscription "dir" project start
      deployment "schema, public" (λ calls. refl) create_product_deployment_done

-- A generator whose reference has no namespace, and a cluster with no subscription outside one.
abbrev bare : ProductDeploymentGenerator
bare = record generator {
  spec = record generator.spec { subscription_ref = record { name = "c"; namespace = "" } };
}

abbrev bare_env : Env
bare_env = record env { get_subscription = λ calls k. fails (external "not found") }

find_generators_unqualified_example :
    Contains
      (request bare)
      (find_generators (λ t. done (bare ∷ [])) (record { name = "c"; namespace = "project" }))
    × (reconcile_object bare_env bare start ≡ (
      fails (wrap "failed to find subscription object" (external "not found")),
      record {
        obj = marked bare_env (external "not found") generator;
        calls = Call.get_subscription (record { name = "c"; namespace = "" }) ∷ [];
      },
    ))
find_generators_unqualified_example =
    find_generators_unqualified (λ t. done (bare ∷ [])) (bare ∷ []) bare_env bare
      (external "not found") start refl refl (λ h. inl refl) refl
