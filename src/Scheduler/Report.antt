-- ===== src/Scheduler/Report.antt =====
-- What the scheduler writes into the status, and that it is patched on every path.
use mpas_product_controller.Base.{
  ◌≡◌, refl, ap, String, List, [], ◌∷◌, some, none, ◌<>◌, eq_iff, eq_false, arith,
}
use mpas_product_controller.Kube.Errors.{Key, Result, error_text}
use mpas_product_controller.Kube.Action.{Outcome, Session, ◌>>=◌, done, fails, panics, joined}
use mpas_product_controller.Kube.Conditions.{
  Condition, ConditionLaws, reconciling_condition, progressing_reason, succeeded_reason, condition,
  holds, fails_,
}
use mpas_product_controller.Api.{ProductDeploymentPipeline, Target}
use mpas_product_controller.Api.Reasons.{deployed_condition, pipeline_deployment_failed}
use mpas_product_controller.Scheduler.Env.{Call, Env}
use mpas_product_controller.Scheduler.Select.{select_target}
use mpas_product_controller.Scheduler.Reconcile.{
  set_status, patch_status, deployment_failed, deploy_to, place, with_snapshot, with_ref, reconcile,
}
use mpas_product_controller.Scheduler.Gates.{start, IsOpen}

module _ (env : Env) where
  open env.conditions use {get}

  -- After a success the condition Deployed holds, Reconciling is gone, and the target is recorded
  -- that was selected, in the state `asking`, for the role and the namespace of the pipeline; after
  -- an error Deployed is false, with the reason of this step.
  abbrev pub Report :
      Session Call ProductDeploymentPipeline → Outcome Result → ProductDeploymentPipeline → Type 0
  Report asking (done r) obj =
      (t : Target) × ((select_target env asking.obj.spec.target_role asking.obj.meta.namespace
          asking).0
        ≡ done t)
      × (get deployed_condition obj.status.conditions
          ≡ some (condition deployed_condition holds succeeded_reason "Successfully deployed"))
      × (get reconciling_condition obj.status.conditions ≡ none)
      × (obj.status.selected_target_ref
          ≡ some (record { name = t.meta.name; namespace = t.meta.namespace }))
  Report asking (fails e) obj =
      (m : String) × (get deployed_condition obj.status.conditions
        ≡ some (condition deployed_condition fails_ pipeline_deployment_failed m))
  Report asking panics obj = Unit

  -- The state in which a target is selected.
  abbrev pub asked : Session Call ProductDeploymentPipeline → Session Call ProductDeploymentPipeline
  asked s = record s {
    obj =
        set_status
          (λ st. record st {
            conditions =
                env.conditions.progressive progressing_reason
                  ("reconciliation in progress for resource: " <> s.obj.meta.name) st.conditions;
          })
          s.obj;
  }

  module _ (laws : ConditionLaws env.conditions) where
    marked_true :
        (r m : String) (cs : List Condition)
        → get deployed_condition (
            env.conditions.delete reconciling_condition
              (env.conditions.mark_true deployed_condition r m cs))
          ≡ some (condition deployed_condition holds r m)
    marked_true r m cs = rw (
      laws.get-delete_ne deployed_condition reconciling_condition _
          (λ e. ground (arith, eq_iff deployed_condition reconciling_condition)),
      laws.mark_true-put deployed_condition r m cs,
      laws.get-put (condition deployed_condition holds r m) cs,
    )

    marked_false :
        (r m : String) (cs : List Condition)
        → get deployed_condition (env.conditions.mark_false deployed_condition r m cs)
          ≡ some (condition deployed_condition fails_ r m)
    marked_false r m cs = rw (
      laws.mark_false-put deployed_condition r m cs,
      laws.get-put (condition deployed_condition fails_ r m) cs,
    )

    deploy_to_reports :
        (t : Target) (asking s : Session Call ProductDeploymentPipeline)
        → (select_target env asking.obj.spec.target_role asking.obj.meta.namespace asking).0
          ≡ done t
        → Report asking (deploy_to env t s).0 (deploy_to env t s).1.obj
    unfolding deploy_to deployment_failed ◌>>=◌
    deploy_to_reports t asking s chosen = split _ refl
      where
        selected : ProductDeploymentPipeline
        selected =
            set_status
              (λ st. record st {
                selected_target_ref =
                    some (record { name = t.meta.name; namespace = t.meta.namespace });
              })
              s.obj

        split :
            (a : Outcome (Unit {0}))
            → env.deploy s.calls selected ≡ a
            → Report asking (deploy_to env t s).0 (deploy_to env t s).1.obj
        split (done u) e = rw e (t, chosen, marked_true _ _ _, laws.get-delete _ _, refl)
        split (fails x) e = rw e (error_text x, marked_false _ _ _)
        split panics e = rw e tt

    place_reports :
        (s : Session Call ProductDeploymentPipeline)
        → Report (asked s) (place env s).0 (place env s).1.obj
    unfolding place deployment_failed ◌>>=◌
    place_reports s =
        split (select_target env s.obj.spec.target_role s.obj.meta.namespace (asked s)) refl
      where
        split :
            (a : Outcome Target × Session Call ProductDeploymentPipeline)
            → select_target env s.obj.spec.target_role s.obj.meta.namespace (asked s) ≡ a
            → Report (asked s) (place env s).0 (place env s).1.obj
        split (done t, s') e = rw e (deploy_to_reports t (asked s) s' (ap (λ x. x.0) e))
        split (fails x, s') e = rw e (error_text x, marked_false _ _ _)
        split (panics, s') e = rw e tt

    -- The state in which the run has passed the gates.
    abbrev pub passed : (key : Key) → IsOpen env key → Session Call ProductDeploymentPipeline
    passed key g = record {
      obj = g.obj;
      calls = Call.get_snapshot g.ref ∷ Call.get_pipeline key ∷ [];
    }

    -- Where the pipeline, its snapshot reference and the ready snapshot are found, the last call of a
    -- run patches the status, on success and on every error, and its answer is joined to the result.
    -- What it patches says after a success that Deployed holds, with no Reconciling and with the name
    -- and the namespace of the target that selectTarget gave for the pipeline's role and namespace,
    -- and after an error that Deployed is false with the reason of this step.
    pub reconcile_reports :
        (key : Key) (zero : ProductDeploymentPipeline) (g : IsOpen env key)
        → (r : Outcome Result) × (o : ProductDeploymentPipeline) × (rest : List Call) × ((reconcile
              env key
              (start zero)).1.calls
            ≡ Call.update_status o ∷ rest)
          × ((reconcile env key (start zero)).0 ≡ joined r (env.update_status rest o))
          × Report (asked (passed key g)) r o
    unfolding reconcile with_ref with_snapshot patch_status ◌>>=◌
    reconcile_reports key zero g =
        let s = passed key g in
        (
          (place env s).0,
          (place env s).1.obj,
          (place env s).1.calls,
          rw (g.found, g.named, eq_false g.ref.name "" g.not_empty, g.answered, g.ready),
          rw (g.found, g.named, eq_false g.ref.name "" g.not_empty, g.answered, g.ready),
          place_reports s,
        )
