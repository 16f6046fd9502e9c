-- ===== src/Targeting/Reconcile.antt =====
-- The methods Reconcile and reconcile.
use mpas_product_controller.Base.{
  String, Bool, false, ◌&&◌, ◌||◌, Option, none, some, ◌==◌, ◌<>◌, if◌then◌else◌, nat_eq, decimal,
}
use mpas_product_controller.Kube.Errors.{
  Error, Key, Result, wrap, aggregate, error_text, no_requeue, after,
}
use mpas_product_controller.Kube.Action.{
  Outcome, done, fails, panics, ◌>>=◌, ◌>>◌, pure, fail, panic, lift, on_error, fetch, read, modify,
  call,
}
use mpas_product_controller.Kube.Conditions.{ready_condition, stalled_condition, progressing_reason}
use mpas_product_controller.Kube.Store.{create_or_update}
use mpas_product_controller.Api.{Target, KubernetesAccess}
use mpas_product_controller.Api.Reasons.{
  access_invalid, namespace_create_or_update_failed, service_account_create_or_update_failed,
}
use mpas_product_controller.Targeting.Env.{Call, Env, Run, on_conditions}
use mpas_product_controller.Targeting.Access.{fresh, reconcile_service_account}
use mpas_product_controller.Targeting.Status.{set_status}

module _ (env : Env) where
  open env.conditions use {delete, is_ready, is_stalled, mark_false, mark_stalled, progressive}

  -- `obj.Spec.Access.Raw`, with the nil dereference.
  unfoldable pub access_of : Option String → Run KubernetesAccess
  access_of none = panic
  access_of (some raw) = lift (env.unmarshal raw)

  unfoldable pub access_failed : {A : Type 0} → Error → Run A
  access_failed e = do
    on_conditions (mark_stalled access_invalid (error_text e))
    on_conditions (mark_false ready_condition access_invalid (error_text e))
    fail e

  unfoldable pub failed : {A : Type 0} → String → String → Error → Run A
  failed reason context e = do
    on_conditions (mark_false ready_condition reason (error_text e))
    fail (wrap context e)

  unfoldable pub announce : Target → Run (Unit {0})
  announce obj = if nat_eq obj.meta.generation obj.status.observed_generation then pure tt else do
    on_conditions (
        progressive progressing_reason (
          "processing object: new generation "
          <> decimal obj.status.observed_generation
          <> " -> "
          <> decimal obj.meta.generation))
    current ← read
    call (Call.patch current false) (λ calls. env.patch calls current false)

  -- The body of the method `reconcile`, from the access on.
  unfoldable pub provision : Target → KubernetesAccess → Run Result
  unfolding failed
  provision obj access = do
    on_conditions (delete stalled_condition)
    on_error
        (create_or_update env.namespaces Call.write_namespace done
          (fresh access.target_namespace ""))
        (failed namespace_create_or_update_failed "error reconciling namespace")
    if obj.spec.service_account_name == ""
        then pure tt
        else on_error (reconcile_service_account env obj (fresh access.target_namespace "") access)
            (failed service_account_create_or_update_failed "error reconciling service account")
    on_conditions (delete ready_condition)
    pure (after obj.spec.interval)

  -- The body of the method `reconcile`.
  unfoldable pub prepare : Run Result
  unfolding announce access_of access_failed provision
  prepare = do
    on_conditions (progressive progressing_reason "reconciliation in progress")
    obj ← read
    announce obj
    access ← on_error (access_of obj.spec.access) access_failed
    provision obj access

  -- The deferred call, which may change the result; with an error, the result is the zero one.
  unfoldable pub close : Target → Outcome Result → Run Result
  close old (done result) = set_status env old.spec.interval old.status.conditions result
  close old (fails e) = set_status env old.spec.interval old.status.conditions no_requeue >> fail e
  close old panics = set_status env old.spec.interval old.status.conditions no_requeue >> panic

  -- The method `reconcile`.
  unfoldable pub reconcile_target : Run Result
  unfolding close prepare
  reconcile_target s = let (r, s') = prepare s in close s.obj r s'

  -- The result with the error of the patch, which is left out where a deleted object is not found.
  abbrev aggregated : {A : Type 0} → Bool → Outcome A → Outcome (Unit {0}) → Outcome A
  aggregated deleting panics _ = panics
  aggregated deleting (done a) (done _) = done a
  aggregated deleting (done a) (fails d) =
      if deleting && env.is_not_found d then done a else fails d
  aggregated deleting (done a) panics = panics
  aggregated deleting (fails e) (done _) = fails e
  aggregated deleting (fails e) (fails d) =
      if deleting && env.is_not_found d then fails e else fails (aggregate e d)
  aggregated deleting (fails e) panics = panics

  unfoldable pub patch_target : Run (Unit {0})
  patch_target = do
    obj ← read
    call (Call.patch obj (is_stalled obj.status.conditions || is_ready obj.status.conditions))
        (λ calls.
          env.patch calls obj (is_stalled obj.status.conditions || is_ready obj.status.conditions))

  unfoldable pub process : Run Result
  unfolding reconcile_target patch_target
  process s =
      let (r, s') = reconcile_target s in
      let (q, s'') = patch_target s' in (aggregated s'.obj.meta.deleting r q, s'')

  -- The method Reconcile.
  unfoldable pub reconcile : Key → Run Result
  unfolding process
  reconcile key =
      fetch env.is_not_found (call (Call.get_target key) (λ calls. env.get_target calls key))
        (pure no_requeue) (λ e. e) (λ obj. modify (λ _. obj) >> process)
