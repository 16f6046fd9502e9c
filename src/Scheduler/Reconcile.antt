-- ===== src/Scheduler/Reconcile.antt =====
-- controllers/productdeploymentpipeline_scheduler.go: the method Reconcile.
use mpas_product_controller.Base.{
  ℕ, ◌*◌, String, List, Option, none, some, ◌==◌, ◌<>◌, if◌then◌else◌,
}
use mpas_product_controller.Kube.Errors.{
  Error, Key, Result, wrap, error_text, no_requeue, after, second,
}
use mpas_product_controller.Kube.Action.{
  ◌>>=◌, ◌>>◌, pure, fail, on_error, fetch, deferring, read, modify, call, tell,
}
use mpas_product_controller.Kube.Conditions.{
  Condition, ready_condition, reconciling_condition, progressing_reason, succeeded_reason,
}
use mpas_product_controller.Api.{ProductDeploymentPipeline, ProductDeploymentPipelineStatus, Target}
use mpas_product_controller.Api.Reasons.{deployed_condition, pipeline_deployment_failed}
use mpas_product_controller.Scheduler.Env.{Call, Env, Run}
use mpas_product_controller.Scheduler.Select.{select_target}

-- defaultValidationRequeue
abbrev pub default_validation_requeue : ℕ
default_validation_requeue = 5 * second

abbrev pub set_status :
    (ProductDeploymentPipelineStatus → ProductDeploymentPipelineStatus)
    → ProductDeploymentPipeline
    → ProductDeploymentPipeline
set_status f obj = record obj { status = f obj.status }

abbrev pub on_conditions : (List Condition → List Condition) → Run (Unit {0})
on_conditions f = modify (set_status (λ s. record s { conditions = f s.conditions }))

module _ (env : Env) where
  open env.conditions use {progressive, mark_true, mark_false, delete, is_true}

  -- The deferred patch of the object and its status.
  unfoldable pub patch_status : Run (Unit {0})
  patch_status = do obj ← read; call (Call.update_status obj) (λ calls. env.update_status calls obj)

  -- What both error paths do: the condition, the event and the wrapped error.
  unfoldable pub deployment_failed : {A : Type 0} → String → Error → Run A
  deployment_failed context err = do
    on_conditions (mark_false deployed_condition pipeline_deployment_failed (error_text err))
    tell (Call.event (error_text err))
    fail (wrap context err)

  -- From the selection of a target to the end.
  unfoldable pub deploy_to : Target → Run Result
  deploy_to target = do
    modify (
        set_status (λ s. record s {
          selected_target_ref =
              some (record { name = target.meta.name; namespace = target.meta.namespace });
        }))
    selected ← read
    on_error (call (Call.deploy selected) (λ calls. env.deploy calls selected))
        (deployment_failed "failed to deploy object to selected target")
    on_conditions (mark_true deployed_condition succeeded_reason "Successfully deployed")
    tell (Call.event "Reconciliation success")
    on_conditions (delete reconciling_condition)
    pure no_requeue

  -- The part of the method behind the deferred patch.
  unfoldable pub place : Run Result
  place = do
    obj ← read
    on_conditions (
        progressive progressing_reason
          ("reconciliation in progress for resource: " <> obj.meta.name))
    target ←
        on_error (select_target env obj.spec.target_role obj.meta.namespace)
          (deployment_failed "failed to select a target with the given criteria")
    deploy_to target

  -- The snapshot is there.
  unfoldable pub with_snapshot : List Condition → Run Result
  with_snapshot snapshot =
      if is_true ready_condition snapshot
      then deferring place patch_status
      else pure (after default_validation_requeue)

  -- The pipeline is there.
  unfoldable pub with_ref : Option Key → Run Result
  with_ref none = pure (after default_validation_requeue)
  with_ref (some ref) =
      if ref.name == ""
      then pure (after default_validation_requeue)
      else fetch env.is_not_found
          (call (Call.get_snapshot ref) (λ calls. env.get_snapshot calls ref))
          (pure (after default_validation_requeue)) (wrap "failed to retrieve snapshot object")
          with_snapshot

  -- The method Reconcile.
  unfoldable pub reconcile : Key → Run Result
  reconcile key =
      fetch env.is_not_found (call (Call.get_pipeline key) (λ calls. env.get_pipeline calls key))
        (pure no_requeue) (wrap "failed to find pipeline deployment object")
        (λ obj. modify (λ _. obj) >> with_ref obj.status.snapshot_ref)
