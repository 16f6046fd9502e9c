-- ===== src/Generating/Syncs.antt =====
-- The method createSync.
use Prim.Native.String.{slice}
use mpas_product_controller.Base.{
  ◌*◌, String, true, false, [], ◌∷◌, Option, none, some, ◌<>◌, if◌then◌else◌,
}
use mpas_product_controller.Kube.Errors.{text, wrap, error_text, is_unschedulable, second}
use mpas_product_controller.Kube.Action.{
  Outcome, done, fails, panics, mapped, ◌>>=◌, ◌>>◌, pure, fail, panic, on_error, attempt, call,
}
use mpas_product_controller.Kube.Conditions.{progressing_reason}
use mpas_product_controller.Kube.Store.{create_or_update}
use mpas_product_controller.Api.{
  ObjectMeta, Component, ProductDeployment, ProductDeploymentGenerator, ProductDescription,
}
use mpas_product_controller.Api.Reasons.{
  temporary_folder_generation_failed, create_product_pipeline_failed,
  product_pipeline_scheduling_failed, create_snapshot_failed, commit_template_empty,
  create_sync_failed,
}
use mpas_product_controller.Project.{Project, CommitTemplate}
use mpas_product_controller.Generating.Env.{
  Call, Env, Run, File, Subscription, SyncRequest, on_conditions, failed,
}
use mpas_product_controller.Generating.Product.{create_product_deployment}
use mpas_product_controller.Generating.Snapshots.{create_snapshot}

module _ (env : Env) (obj : ProductDeploymentGenerator) where
  open env.conditions use {mark_not_ready, progressive}

  -- hashComponentVersion: the first eight digits.
  abbrev pub hash_component_version : String → String
  hash_component_version version = slice (env.sha1_hex version) 0 8

  -- The metadata of the sync and of the validation of a component version.
  abbrev pub versioned : String → Component → ObjectMeta
  versioned infix_ component = record {
    name = obj.meta.name <> infix_ <> hash_component_version component.version;
    namespace = obj.meta.namespace;
    labels = [];
    annotations =
        ("mpas.ocm.system/component-version", component.version)
        ∷ ("mpas.ocm.system/component-name", component.name)
        ∷ [];
    owners = [];
    generation = 0;
    created = false;
    deleting = false;
  }

  abbrev repository_name : String → Option String → String
  repository_name default_name none = default_name
  repository_name default_name (some name) = name

  abbrev pub sync_request :
      ProductDescription → Component → Project → String → String → CommitTemplate → SyncRequest
  sync_request description component project repository snapshot template = record {
    meta = versioned "-sync-" component;
    snapshot_ref = snapshot;
    repository_ref = record {
      name = repository_name repository obj.spec.repository_ref;
      namespace = env.mpas_system_namespace;
    };
    interval = 60 * second;
    commit_template = template;
    base_branch = project.default_branch;
    pull_request_title = "MPAS System Automated Pull Request for Product: " <> description.name;
    automatic_pull_request_creation = true;
    sub_path = "products/.";
  }

  -- The callback.
  unfoldable pub own_sync : SyncRequest → Outcome SyncRequest
  own_sync sync =
      if sync.meta.created
      then done sync
      else mapped (λ m. record sync { meta = m }) (wrap "failed to set owner to sync object")
          (env.set_owner obj.meta sync.meta)

  unfoldable pub request_sync :
      ProductDescription
      → Component
      → Project
      → String
      → String
      → Option CommitTemplate
      → Run SyncRequest
  unfolding failed own_sync
  request_sync description component project repository snapshot none = do
    on_conditions
        (mark_not_ready commit_template_empty "commit template in project cannot be empty")
    fail (text "commit template in project cannot be empty")
  request_sync description component project repository snapshot (some template) =
      on_error
        (create_or_update env.syncs Call.write_sync own_sync
          (sync_request description component project repository snapshot template))
        (failed env create_sync_failed "failed to create sync request")

  -- What follows the creation of the deployment. Unschedulable pipelines stop the reconciliation
  -- with no error.
  unfoldable pub after_deployment :
      ProductDescription
      → Component
      → String
      → Project
      → String
      → Outcome (ProductDeployment × File)
      → Run (Option (SyncRequest × File))
  unfolding request_sync failed
  after_deployment description component dir project repository panics = panic
  after_deployment description component dir project repository (fails e) =
      if is_unschedulable e
      then (do
        on_conditions (mark_not_ready product_pipeline_scheduling_failed (error_text e))
        pure none)
      else failed env create_product_pipeline_failed "failed to create product deployment" e
  after_deployment description component dir project repository (done (deployment, schema)) = do
    snapshot ←
        on_error (create_snapshot env obj deployment component dir)
          (failed env create_snapshot_failed "failed to create snapshot for product deployment")
    sync ← request_sync description component project repository snapshot project.commit_template
    pure (some (sync, schema))

  unfoldable pub create_sync :
      ProductDescription
      → Subscription
      → String
      → Project
      → String
      → Run (Option (SyncRequest × File))
  unfolding after_deployment
  create_sync description subscription dir project repository = do
    on_error
        (call (Call.make_dir (env.join (dir ∷ obj.meta.name ∷ [])))
          (λ calls. env.make_dir calls (env.join (dir ∷ obj.meta.name ∷ []))))
        (failed env temporary_folder_generation_failed "failed to create product folder")
    on_conditions (progressive progressing_reason "generation kubernetes resources")
    result ← attempt (
        create_product_deployment env obj description subscription
          (env.join (dir ∷ obj.meta.name ∷ [])) project)
    after_deployment description subscription.component dir project repository result
