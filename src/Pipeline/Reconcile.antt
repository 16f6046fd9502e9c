-- ===== src/Pipeline/Reconcile.antt =====
-- The method Reconcile of the pipeline controller.
use mpas_product_controller.Base.{
  String, List, [], ◌∷◌, Option, none, some, ◌==◌, ◌<>◌, if◌then◌else◌, length, decimal,
}
use mpas_product_controller.Kube.Errors.{
  Error, Key, Result, text, wrap, error_text, no_requeue, after,
}
use mpas_product_controller.Kube.Action.{
  ◌>>=◌, ◌>>◌, pure, fail, panic, on_error, fetch, deferring, read, modify, call,
}
use mpas_product_controller.Kube.Conditions.{progressing_reason}
use mpas_product_controller.Api.{OwnerReference, ProductDeploymentPipeline}
use mpas_product_controller.Api.Reasons.{create_localization_failed, create_configuration_failed}
use mpas_product_controller.Pipeline.Objects.{Mutation}
use mpas_product_controller.Pipeline.Env.{Call, Env, Run, quick_requeue, set_status, on_conditions}
use mpas_product_controller.Pipeline.Localization.{create_or_update_localization}
use mpas_product_controller.Pipeline.Configuration.{create_or_update_configuration}

-- A value of the interface SnapshotWriter: nil, or a pointer of one of the two types, which may be
-- nil itself.
abbrev pub Provider : Type 0
Provider = Option (Option Mutation)

-- `snapshotProvider = localization`, and `snapshotProvider = configuration` if that is not nil.
abbrev pub provider : Option Mutation → Option Mutation → Provider
provider localization none = some localization
provider localization (some configuration) = some (some configuration)

module _ (env : Env) where
  open env.conditions use {progressive, mark_ready, mark_not_ready}

  -- Both error paths: the wrapped error is marked and returned.
  unfoldable pub creation_failed : {A : Type 0} → String → String → Error → Run A
  creation_failed reason context err = do
    on_conditions (mark_not_ready reason (error_text (wrap context err)))
    fail (wrap context err)

  -- What follows the test on the snapshot's name.
  unfoldable pub publish : String → Run Result
  publish name = if name == "" then pure (after quick_requeue) else do
    modify (λ obj.
        set_status
          (λ s. record s {
            snapshot_ref = some (record { name = name; namespace = obj.meta.namespace });
          })
          obj)
    on_conditions (mark_ready "Reconciliation success")
    pure no_requeue

  -- The method GetSnapshotName reads the status, so a nil pointer panics.
  unfoldable pub finish : Provider → Run Result
  unfolding publish
  finish none = do
    on_conditions (
        mark_not_ready "NoArtifactAfterLocalizationAndConfiguration"
          "no artifact provider after localization and configuration")
    fail (text "no artifact provider after localization and configuration")
  finish (some none) = panic
  finish (some (some m)) = publish m.snapshot_name

  -- From the configuration to the end.
  unfoldable pub configured : ProductDeploymentPipeline → Option Mutation → Run Result
  configured obj localization = do
    configuration ←
        on_error (create_or_update_configuration env obj localization)
          (creation_failed create_configuration_failed "failed to create configuration")
    finish (provider localization configuration)

  -- The part of the method behind the deferred patch.
  unfoldable pub progress : Run Result
  unfolding finish creation_failed configured
  progress = do
    obj ← read
    on_conditions (
        progressive progressing_reason
          ("reconciliation in progress for resource: " <> obj.meta.name))
    localization ←
        on_error (create_or_update_localization env obj)
          (creation_failed create_localization_failed "failed to create localization")
    configured obj localization

  -- The deferred patch of the object and its status.
  unfoldable pub patch_status : Run (Unit {0})
  patch_status = do obj ← read; call (Call.update_status obj) (λ calls. env.update_status calls obj)

  unfoldable pub with_owners : ProductDeploymentPipeline → List OwnerReference → Run Result
  unfolding progress patch_status
  with_owners obj (owner ∷ []) = do
    on_error
        (call (Call.get_owner (record { name = owner.name; namespace = obj.meta.namespace }))
          (λ calls.
            env.get_owner calls (record { name = owner.name; namespace = obj.meta.namespace })))
        (λ e. fail (wrap "failed to find the owner" e))
    deferring progress patch_status
  with_owners obj owners =
      fail (text ("expected exactly one owner, got: " <> decimal (length owners)))

  -- The method Reconcile.
  unfoldable pub reconcile : Key → Run Result
  unfolding with_owners
  reconcile key =
      fetch env.is_not_found (call (Call.get_pipeline key) (λ calls. env.get_pipeline calls key))
        (pure no_requeue) (wrap "failed to find pipeline deployment object")
        (λ obj. modify (λ _. obj) >> with_owners obj obj.meta.owners)
