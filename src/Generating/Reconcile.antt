-- ===== src/Generating/Reconcile.antt =====
-- The methods Reconcile and reconcile.
use mpas_product_controller.Base.{
  String, Bool, true, false, not, [], Option, none, some, ◌<>◌, if◌then◌else◌,
}
use mpas_product_controller.Kube.Errors.{Key, Result, wrap, no_requeue, after}
use mpas_product_controller.Kube.Action.{
  Outcome, done, mapped, ◌>>=◌, ◌>>◌, pure, lift, on_error, deferring, fetch, read, modify, call,
}
use mpas_product_controller.Kube.Conditions.{progressing_reason}
use mpas_product_controller.Kube.Store.{create_or_update}
use mpas_product_controller.Api.{
  Component, ProductDeploymentGenerator, ProductDescription, Validation,
}
use mpas_product_controller.Api.Reasons.{
  component_subscription_get_failed, project_in_namespace_get_failed, project_not_ready,
  repository_information_missing, ocm_authentication_failed, component_version_get_failed,
  product_description_get_failed, temporary_folder_generation_failed, schema_generation_failed,
  create_validation_failed,
}
use mpas_product_controller.Project.{Project, project_from_namespace}
use mpas_product_controller.Generating.Env.{
  Call, Env, Run, File, Subscription, SyncRequest, set_status, on_conditions, failed, long_requeue,
}
use mpas_product_controller.Generating.Gate.{should_run}
use mpas_product_controller.Generating.Syncs.{versioned, create_sync}

module _ (env : Env) (obj : ProductDeploymentGenerator) where
  open env.conditions use {is_ready, mark_ready, mark_not_ready, progressive}

  abbrev pub validation : Component → SyncRequest → String → Validation
  validation component sync schema = record {
    meta = versioned env obj "-validation-" component;
    spec = record {
      schema = schema;
      service_account_name = obj.spec.service_account_name;
      interval = long_requeue;
      sync_ref = record { name = sync.meta.name; namespace = sync.meta.namespace };
    };
    status = record {
      observed_generation = 0;
      conditions = [];
      git_repository_ref = none;
      last_validated_digest = "";
      last_validated_digest_outcome = "";
    };
  }

  -- The callback.
  unfoldable pub own_validation : Validation → Outcome Validation
  own_validation v =
      if v.meta.created
      then done v
      else mapped (λ m. record v { meta = m }) (wrap "failed to set owner to validation object")
          (env.set_owner obj.meta v.meta)

  -- What follows createSync; `none` is the nil sync.
  unfoldable pub finish : Component → Option (SyncRequest × File) → Run Result
  unfolding failed own_validation
  finish component none = pure no_requeue
  finish component (some (sync, values)) = do
    schema ←
        on_error (lift (env.format values))
          (failed env schema_generation_failed "failed to create sync request")
    on_error
        (create_or_update env.validations Call.write_validation own_validation
          (validation component sync schema))
        (failed env create_validation_failed "failed to create validation request")
    on_conditions (progressive progressing_reason "components applied and generated")
    modify (set_status (λ s. record s { last_reconciled_version = component.version }))
    on_conditions (mark_ready ("Applied version: " <> component.version))
    pure no_requeue

  -- The temporary directory is there.
  unfoldable pub generate :
      Subscription → Project → String → ProductDescription → String → Run Result
  unfolding finish
  generate subscription project repository description dir = do
    made ← create_sync env obj description subscription dir project repository
    finish subscription.component made

  -- The component version is open.
  unfoldable pub with_component : Subscription → Project → String → Run Result
  unfolding generate failed
  with_component subscription project repository = do
    on_conditions (
        progressive progressing_reason
          ("fetching component description " <> subscription.component.name))
    content ←
        on_error (call Call.get_description env.product_description)
          (failed env product_description_get_failed "failed to get product description data")
    description ←
        on_error (lift (env.unmarshal content))
          (failed env product_description_get_failed "failed to unmarshal product description")
    dir ←
        on_error (call Call.make_temp env.make_temp)
          (failed env temporary_folder_generation_failed "failed to create temp folder")
    deferring (generate subscription project repository description dir)
        (call (Call.remove_all dir) (λ calls. env.remove_all calls dir))

  unfoldable pub fetch_component : Subscription → Project → String → Run Result
  unfolding with_component failed
  fetch_component subscription project repository = do
    on_conditions
        (progressive progressing_reason ("fetching component " <> subscription.component.name))
    on_error
        (call (Call.authenticate obj.spec.service_account_name obj.meta.namespace)
          (λ calls. env.authenticate calls obj.spec.service_account_name obj.meta.namespace))
        (failed env ocm_authentication_failed "failed to authenticate using service account")
    on_error
        (call (Call.open_component subscription.component)
          (λ calls. env.open_component calls subscription.component))
        (failed env component_version_get_failed "failed to authenticate using service account")
    deferring (with_component subscription project repository)
        (call Call.close_component env.close_component)

  unfoldable pub with_ref : Subscription → Project → Option Key → Run Result
  unfolding fetch_component
  with_ref subscription project none = do
    on_conditions (mark_not_ready repository_information_missing "repository information missing")
    pure (after obj.spec.interval)
  with_ref subscription project (some ref) = fetch_component subscription project ref.name

  unfoldable pub with_project : Subscription → Project → Run Result
  unfolding with_ref
  with_project subscription project =
      if not (is_ready project.conditions)
      then (do
        on_conditions (mark_not_ready project_not_ready "project not ready yet")
        pure (after obj.spec.interval))
      else with_ref subscription project project.repository_ref

  -- What follows shouldRun.
  unfoldable pub with_subscription : Subscription → Bool → Run Result
  unfolding with_project failed
  with_subscription subscription false = do
    on_conditions (mark_ready "Reconciliation success")
    pure no_requeue
  with_subscription subscription true = do
    project ←
        on_error (project_from_namespace env.projects obj.meta.namespace env.mpas_system_namespace)
          (failed env project_in_namespace_get_failed "failed to find the project in the namespace")
    with_project subscription project

  -- The method `reconcile`.
  unfoldable pub reconcile_object : Run Result
  unfolding with_subscription failed
  reconcile_object = do
    subscription ←
        on_error
          (call (Call.get_subscription obj.spec.subscription_ref)
            (λ calls. env.get_subscription calls obj.spec.subscription_ref))
          (failed env component_subscription_get_failed "failed to find subscription object")
    ok ← should_run env subscription
    with_subscription subscription ok

module _ (env : Env) where
  -- The deferred patch of the object and its status.
  unfoldable pub patch_status : Run (Unit {0})
  patch_status = do obj ← read; call (Call.update_status obj) (λ calls. env.update_status calls obj)

  -- The part of the method Reconcile behind the deferred patch.
  unfoldable pub process : Run Result
  unfolding reconcile_object
  process = do
    obj ← read
    on_conditions (
        env.conditions.progressive progressing_reason
          ("reconciliation in progress for resource: " <> obj.meta.name))
    reconcile_object env obj

  -- The method Reconcile.
  unfoldable pub reconcile : Key → Run Result
  unfolding process patch_status
  reconcile key =
      fetch env.is_not_found (call (Call.get_generator key) (λ calls. env.get_generator calls key))
        (pure no_requeue) (wrap "failed to get product deployment generator")
        (λ obj. modify (λ _. obj) >> deferring process patch_status)
