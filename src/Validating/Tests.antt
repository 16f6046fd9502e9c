-- ===== src/Validating/Tests.antt =====
-- A validation controller, tests and witnesses.
use mpas_product_controller.Base.{
  ◌≡◌, ◌≢◌, ◌⊎◌, refl, String, ◌*◌, true, false, [], ◌∷◌, some, none, nat_eq,
}
use mpas_product_controller.Kube.Errors.{Result, after, second}
use mpas_product_controller.Kube.Action.{Session, ◌>>=◌, done}
use mpas_product_controller.Kube.Conditions.{condition, holds, ready_condition, succeeded_reason}
use mpas_product_controller.Kube.Sample.{empty_store, sample, sample_laws}
use mpas_product_controller.Api.{Validation, success_validation_outcome}
use mpas_product_controller.Fixtures.{meta, key, owner}
use mpas_product_controller.Git.{Repository, Sync}
use mpas_product_controller.Project.{Project, project_named, project_from_namespace}
use mpas_product_controller.Validating.Env.{Call, Env, Artifact, GitRepository}
use mpas_product_controller.Validating.Gate.{
  runs, track, with_repository, with_ref, with_sync, should_run,
}
use mpas_product_controller.Validating.Reconcile.{
  failed, validate, with_artifact, act, with_owners, patch_status, reconcile,
}
use mpas_product_controller.Validating.Once.{
  IsValid, validated_once, validate_passes, validate_success,
}
use mpas_product_controller.Validating.Opens.{IsOpen, should_run_open}

abbrev artifact : Artifact
artifact = record { url = "http://source"; digest = "sha256:1" }

abbrev ready : Validation
ready = record {
  meta = record (meta "web") { owners = owner "ProductDeploymentGenerator" "shop" ∷ [] };
  spec = record {
    schema = "schema";
    service_account_name = "";
    interval = 5 * second;
    sync_ref = key;
  };
  status = record {
    observed_generation = 1;
    conditions = condition ready_condition holds succeeded_reason "" ∷ [];
    git_repository_ref = some key;
    last_validated_digest = "";
    last_validated_digest_outcome = "";
  };
}

abbrev sync : Sync
sync = record {
  meta = meta "web";
  conditions = condition ready_condition holds succeeded_reason "" ∷ [];
  pull_request_id = 7;
}

abbrev repository : Repository
repository = record {
  meta = meta "repo";
  provider = "github";
  owner = "o";
  domain = "";
  insecure = false;
  secret_name = "s";
}

abbrev git : GitRepository
git = record {
  meta = meta "web-values-repo";
  url = "u";
  secret_name = "s";
  interval = 0;
  reference = "";
  ignore = "";
  artifact = some artifact;
}

abbrev project : Project
project = record {
  conditions = condition ready_condition holds succeeded_reason "" ∷ [];
  inventory = none;
  repository_ref = some key;
  commit_template = none;
  default_branch = "main";
}

-- The pull request is open, and the values are valid.
abbrev env : Env
env = record {
  conditions = sample;
  is_not_found = λ e. false;
  mpas_system_namespace = "mpas-system";
  projects = record {
    project_key = "project";
    reads_namespace = Call.get_namespace;
    reads_project = Call.get_project;
    get_namespace = λ calls n. done (("project", "shop") ∷ []);
    get_project = λ calls k. done project;
  };
  get_validation = λ calls k. done ready;
  get_sync = λ calls k. done sync;
  get_repository = λ calls k. done repository;
  get_git_repository = λ calls k. done git;
  repository_url = λ r. "u";
  set_controller = λ o m. done m;
  git_repositories = empty_store;
  delete_git_repository = λ calls g. done tt;
  is_merged_or_closed = λ calls r s. done false;
  pass_validation = λ calls r s. done tt;
  fetch_values = λ calls n a. done "values";
  new_file = λ n t. done tt;
  validate = λ v s. done tt;
  update_status = λ calls v. done tt;
}

abbrev start : Session Call Validation
start = record { obj = ready; calls = [] }

runs_on : (should_run env "shop" ready start).0 ≡ done (runs sync repository git)
unfolding should_run with_sync with_ref with_repository track project_from_namespace project_named
    ◌>>=◌
runs_on = refl

validates : (validate env "shop" sync repository artifact start).0 ≡ done (after (5 * second))
unfolding validate failed ◌>>=◌
validates = refl

run_succeeds : (reconcile env key start).0 ≡ done (after (5 * second))
unfolding reconcile with_owners act with_artifact validate patch_status failed should_run with_sync
    with_ref with_repository track project_from_namespace project_named ◌>>=◌
run_succeeds = refl

should_run_open_example :
    (done sync ≡ done sync)
    × (sample.is_ready sync.conditions ≡ true)
    × (nat_eq 7 0 ≡ false)
    × IsOpen env "shop" ready sync repository (should_run env "shop" ready start).1.calls
should_run_open_example = should_run_open env "shop" ready sync repository git start runs_on

validated_once_example :
    with_artifact env "shop" sync repository
      (some artifact)
      (with_artifact env "shop" sync repository (some artifact) start).1
    ≡ (
      done (after (5 * second)),
      (with_artifact env "shop" sync repository (some artifact) start).1,
    )
validated_once_example = validated_once env "shop" sync repository artifact start

validate_passes_example :
    (((validate env "shop" sync repository artifact start).1.calls
        ≡ Call.fetch_values "shop" artifact ∷ [])
      × ((r : Result) → (validate env "shop" sync repository artifact start).0 ≢ done r))
    ⊎ ((values : String) × (done "values" ≡ done values)
        × IsValid env "shop" sync repository artifact values "schema"
        × ((validate env "shop" sync repository artifact start).1.calls
            ≡ Call.pass_validation repository sync ∷ Call.fetch_values "shop" artifact ∷ []))
validate_passes_example = validate_passes env "shop" sync repository artifact start

validate_success_example :
    (sample.get ready_condition
        (validate env "shop" sync repository artifact start).1.obj.status.conditions
      ≡ some (condition ready_condition holds succeeded_reason "Reconciliation success"))
    × ((validate env "shop" sync repository artifact
          start).1.obj.status.last_validated_digest_outcome
        ≡ success_validation_outcome)
    × (after (5 * second) ≡ after (5 * second))
validate_success_example =
    validate_success env "shop" sync repository artifact start (after (5 * second)) sample_laws
      validates
