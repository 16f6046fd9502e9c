-- ===== src/Validating/Reconcile.antt =====
-- The method Reconcile.
use mpas_product_controller.Base.{
  String, ◌||◌, List, [], ◌∷◌, Option, none, some, ◌==◌, ◌<>◌, if◌then◌else◌, length, decimal,
}
use mpas_product_controller.Kube.Errors.{
  Error, Key, Result, text, wrap, error_text, no_requeue, after,
}
use mpas_product_controller.Kube.Action.{
  ◌>>=◌, ◌>>◌, pure, fail, lift, on_error, deferring, fetch, read, modify, call,
}
use mpas_product_controller.Kube.Conditions.{ready_condition, succeeded_reason}
use mpas_product_controller.Api.{OwnerReference, Validation, success_validation_outcome}
use mpas_product_controller.Api.Reasons.{validation_failed}
use mpas_product_controller.Git.{Repository, Sync}
use mpas_product_controller.Validating.Env.{Call, Env, Run, Artifact, set_status, on_conditions}
use mpas_product_controller.Validating.Gate.{Verdict, runs, stops, should_run}

module _ (env : Env) where
  open env.conditions use {is_ready, is_stalled, mark_true, mark_not_ready}

  unfoldable pub failed : {A : Type 0} → String → Error → Run A
  failed context err = do
    on_conditions (mark_not_ready validation_failed (error_text err))
    fail (wrap context err)

  -- From the digest that is set to the end.
  unfoldable pub validate : String → Sync → Repository → Artifact → Run Result
  unfolding failed
  validate product sync repository artifact = do
    modify (set_status (λ s. record s { last_validated_digest = artifact.digest }))
    obj ← read
    values ←
        on_error
          (call (Call.fetch_values product artifact)
            (λ calls. env.fetch_values calls product artifact))
          (λ e. fail (wrap "failed to fetch artifact content from git repository" e))
    on_error (lift (env.new_file "config" values)) (failed "failed to generate schema")
    on_error (lift (env.new_file "schema" obj.spec.schema)) (failed "failed to generate schema")
    on_error (lift (env.validate values obj.spec.schema)) (failed "failed to validate config")
    on_error
        (call (Call.pass_validation repository sync)
          (λ calls. env.pass_validation calls repository sync))
        (failed "failed to set pull request checks to success")
    on_conditions (mark_true ready_condition succeeded_reason "Reconciliation success")
    modify
        (set_status (λ s. record s { last_validated_digest_outcome = success_validation_outcome }))
    pure (after obj.spec.interval)

  unfoldable pub with_artifact : String → Sync → Repository → Option Artifact → Run Result
  with_artifact product sync repository none = do obj ← read; pure (after obj.spec.interval)
  with_artifact product sync repository (some artifact) = do
    obj ← read
    if artifact.digest == obj.status.last_validated_digest
        then pure (after obj.spec.interval)
        else validate product sync repository artifact

  unfoldable pub act : String → Verdict → Run Result
  act product (stops result) = pure result
  act product (runs sync repository git) = with_artifact product sync repository git.artifact

  unfoldable pub with_owners : List OwnerReference → Validation → Run Result
  with_owners (owner ∷ []) obj = do verdict ← should_run env owner.name obj; act owner.name verdict
  with_owners owners obj = fail (text ("expected one owner, got: " <> decimal (length owners)))

  -- The deferred patch of the object and its status.
  unfoldable pub patch_status : Run (Unit {0})
  patch_status = do
    obj ← read
    if is_stalled obj.status.conditions || is_ready obj.status.conditions
        then modify (set_status (λ s. record s { observed_generation = obj.meta.generation }))
        else pure tt
    patched ← read
    call (Call.update_status patched) (λ calls. env.update_status calls patched)

  unfoldable pub reconcile : Key → Run Result
  unfolding with_owners patch_status
  reconcile key =
      fetch env.is_not_found
        (call (Call.get_validation key) (λ calls. env.get_validation calls key)) (pure no_requeue)
        (wrap "failed to retrieve validation object")
        (λ obj. modify (λ _. obj) >> deferring (with_owners obj.meta.owners obj) patch_status)
