-- ===== src/Deployment/Reconcile.antt =====
-- The methods Reconcile, reconcile and createOrUpdateComponentVersion.
use mpas_product_controller.Base.{
  ◌*◌, String, Bool, true, false, not, List, [], map, ◌<>◌, if◌then◌else◌, keep, nat_eq, decimal,
}
use mpas_product_controller.Kube.Errors.{
  Error, Key, Result, wrap, error_text, no_requeue, after, second,
}
use mpas_product_controller.Kube.Action.{
  Outcome, done, fails, panics, mapped, ◌>>=◌, ◌>>◌, pure, fail, panic, on_error, attempt,
  deferring, read, modify, call,
}
use mpas_product_controller.Kube.Conditions.{ready_condition, progressing_reason}
use mpas_product_controller.Kube.Store.{create_or_update}
use mpas_product_controller.Api.{ProductDeployment, ProductDeploymentPipeline}
use mpas_product_controller.Api.Reasons.{
  create_component_version_failed, project_in_namespace_get_failed, create_config_map_failed,
}
use mpas_product_controller.Project.{project_from_namespace}
use mpas_product_controller.Deployment.Env.{
  Call, Env, Run, ComponentVersion, set_status, on_conditions,
}
use mpas_product_controller.Deployment.ConfigMaps.{values_config_map}
use mpas_product_controller.Deployment.Pipelines.{component_version_name, create_pipelines}

abbrev pub names : List ProductDeploymentPipeline → List String
names existing = map (λ p. p.meta.name) existing

module _ (env : Env) where
  open env.conditions use {progressive, mark_ready, mark_not_ready, is_true}

  abbrev pub component_version : ProductDeployment → ComponentVersion
  component_version obj = record {
    meta = record {
      name = component_version_name obj;
      namespace = obj.meta.namespace;
      labels = [];
      annotations = [];
      owners = [];
      generation = 0;
      created = false;
      deleting = false;
    };
    interval = 600 * second;
    component = obj.spec.component.name;
    repository_url = obj.spec.component.registry_url;
    verify = obj.spec.verify;
    expand_references = true;
    service_account_name = obj.spec.service_account_name;
    semver = "";
  }

  abbrev pinned : ProductDeployment → ComponentVersion → ComponentVersion
  pinned obj cv = record cv { verify = obj.spec.verify; semver = obj.spec.component.version }

  -- The callback: the version and the signatures are those of the deployment.
  unfoldable pub pin : ProductDeployment → ComponentVersion → Outcome ComponentVersion
  pin obj cv =
      if cv.meta.created
      then done (pinned obj cv)
      else mapped (λ m. pinned obj (record cv { meta = m }))
          (wrap "failed to set owner to sync object") (env.set_owner obj.meta cv.meta)

  unfoldable pub create_or_update_component_version : ProductDeployment → Run (Unit {0})
  unfolding pin
  create_or_update_component_version obj = do
    on_error
        (create_or_update env.component_versions Call.write_component_version (pin obj)
          (component_version obj))
        (λ e. fail (wrap "failed to create component version" e))
    pure tt

  -- The error is marked as it is, and returned with its context.
  unfoldable pub failed : {A : Type 0} → String → String → Error → Run A
  failed reason context err = do
    on_conditions (mark_not_ready reason (error_text err))
    fail (wrap context err)

  abbrev pub not_ready : ProductDeploymentPipeline → Bool
  not_ready p = not (is_true ready_condition p.status.conditions)

  -- From the list of the existing pipelines to the end.
  unfoldable pub run_pipelines : ProductDeployment → String → Bool → Run Result
  unfolding failed
  run_pipelines obj config_name updated = do
    existing ←
        on_error
          (call
            (Call.list_pipelines (record { name = obj.meta.name; namespace = obj.meta.namespace }))
            (λ calls.
              env.list_pipelines calls
                (record { name = obj.meta.name; namespace = obj.meta.namespace })))
          (failed "ListingOwnedPipelinesFailed" "failed to list owned pipelines")
    modify (set_status (λ s. record s { active_pipelines = names (keep not_ready existing) }))
    create_pipelines env obj config_name updated (names existing) obj.spec.pipelines
    on_conditions (mark_ready "Reconciliation success")
    pure (after (env.jitter obj.spec.interval))

  -- The method `reconcile`.
  unfoldable pub reconcile_object : Run Result
  unfolding create_or_update_component_version failed run_pipelines
  reconcile_object = do
    obj ← read
    if nat_eq obj.meta.generation obj.status.observed_generation
        then pure tt
        else on_conditions (
            progressive progressing_reason (
              "processing object: new generation "
              <> decimal obj.status.observed_generation
              <> " -> "
              <> decimal obj.meta.generation))
    on_error (create_or_update_component_version obj)
        (failed create_component_version_failed "failed to create component version")
    project ←
        on_error (project_from_namespace env.projects obj.meta.namespace env.mpas_system_namespace)
          (failed project_in_namespace_get_failed "failed to find the project in the namespace")
    config ←
        on_error (values_config_map env obj project)
          (failed create_config_map_failed "failed to validate config")
    run_pipelines obj config.0 config.1

  -- The deferred patch of the object and its status.
  unfoldable pub patch_status : Run (Unit {0})
  patch_status = do obj ← read; call (Call.update_status obj) (λ calls. env.update_status calls obj)

  -- The part of the method Reconcile that follows the Get.
  unfoldable pub process : Run Result
  unfolding patch_status
  process =
      deferring
        (do
          obj ← read
          on_conditions (
              progressive progressing_reason
                ("reconciliation in progress for resource: " <> obj.meta.name))
          reconcile_object)
        patch_status

  -- Only a missing object ends the method: on any other error of Get it goes on.
  unfoldable pub after_get : Outcome ProductDeployment → Run Result
  unfolding process
  after_get (done obj) = modify (λ _. obj) >> process
  after_get (fails e) = if env.is_not_found e then pure no_requeue else process
  after_get panics = panic

  -- The method Reconcile.
  unfoldable pub reconcile : Key → Run Result
  unfolding after_get
  reconcile key = do
    answer ← attempt (call (Call.get_deployment key) (λ calls. env.get_deployment calls key))
    after_get answer
