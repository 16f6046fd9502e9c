-- ===== src/Scheduler/Tests.antt =====
-- A scheduler with one ready pipeline and two targets, tests and witnesses.
use mpas_product_controller.Base.{
  ◌-◌, ◌≡◌, refl, ◌⊎◌, inl, inr, false, List, [], ◌∷◌, some, ◌==◌, if◌then◌else◌, eq_iff, arith,
  Contains,
}
use mpas_product_controller.Kube.Errors.{text, Result, no_requeue}
use mpas_product_controller.Kube.Action.{Outcome, ◌>>=◌, done, fails, joined}
use mpas_product_controller.Kube.Conditions.{
  condition, ready_condition, reconciling_condition, progressing_reason, holds,
}
use mpas_product_controller.Kube.Sample.{sample, sample_laws}
use mpas_product_controller.Api.{Target, ProductDeploymentPipeline}
use mpas_product_controller.Fixtures.{role, target, ref, key, pipeline}
use mpas_product_controller.Scheduler.Env.{Call, Env, PicksBelow}
use mpas_product_controller.Scheduler.Select.{search, choose, or_system, select_target}
use mpas_product_controller.Scheduler.Reconcile.{
  reconcile, with_ref, with_snapshot, place, deploy_to, patch_status, deployment_failed,
}
use mpas_product_controller.Scheduler.Selection.{
  Listed, in_system, of_type, select_target_sound, select_target_total,
}
use mpas_product_controller.Scheduler.Gates.{start, IsOpen, reconcile_gated}
use mpas_product_controller.Scheduler.Report.{Report, asked, passed, reconcile_reports}

abbrev targets : List Target
targets = target "ssh" "ssh" ∷ target "one" "kubernetes" ∷ target "two" "kubernetes" ∷ []

-- Only the system namespace has targets, and the random number is the last index.
abbrev env : Env
env = record {
  conditions = sample;
  is_not_found = λ e. false;
  mpas_system_namespace = "mpas-system";
  get_pipeline = λ calls k. done pipeline;
  get_snapshot = λ calls k. done (condition ready_condition holds "" "" ∷ []);
  as_selector = λ s. done tt;
  list_targets = λ calls s ns. if ns == "mpas-system" then done targets else done [];
  pick = λ calls n. n - 1;
  deploy = λ calls p. done tt;
  update_status = λ calls p. done tt;
}

run_succeeds : (reconcile env key (start pipeline)).0 ≡ done no_requeue
unfolding reconcile with_ref with_snapshot place deploy_to patch_status deployment_failed
    select_target search choose or_system ◌>>=◌
run_succeeds = refl

env-PicksBelow : PicksBelow env
env-PicksBelow calls n h = omega arith

listed : Listed env role "project" [] targets
listed = in_system refl refl

select_target_sound_example :
    (ts : List Target) × Listed env role "project" [] ts
    × Contains (target "two" "kubernetes") ts
    × ((target "two" "kubernetes").spec.type ≡ role.type)
unfolding select_target search choose or_system ◌>>=◌
select_target_sound_example =
    select_target_sound env role "project" (start pipeline) (target "two" "kubernetes") refl

select_target_total_example :
    ((of_type env role targets ≡ [])
      × ((select_target env role "project" (start pipeline)).0
          ≡ fails (text "no targets found using the provided selector filters")))
    ⊎ ((t : Target) × ((select_target env role "project" (start pipeline)).0 ≡ done t))
select_target_total_example =
    select_target_total env env-PicksBelow role "project" (start pipeline) targets refl listed

-- The object that the deployer is handed.
abbrev handed : ProductDeploymentPipeline
handed = record pipeline {
  status = record {
    observed_generation = 0;
    conditions =
        condition reconciling_condition holds progressing_reason
          "reconciliation in progress for resource: web"
        ∷ [];
    selected_target_ref = some (record { name = "two"; namespace = "project" });
    snapshot_ref = some ref;
  };
}

reconcile_gated_example : IsOpen env key
unfolding reconcile with_ref with_snapshot place deploy_to patch_status deployment_failed
    select_target search choose or_system ◌>>=◌
reconcile_gated_example = reconcile_gated env key handed pipeline (inr (inr (inl refl)))

gates : IsOpen env key
gates = record {
  obj = pipeline;
  ref = ref;
  snapshot = condition ready_condition holds "" "" ∷ [];
  found = refl;
  named = refl;
  not_empty = λ e. ground (arith, eq_iff "snap" "");
  answered = refl;
  ready = refl;
}

reconcile_reports_example :
    (r : Outcome Result) × (o : ProductDeploymentPipeline) × (rest : List Call) × ((reconcile env
        key
        (start pipeline)).1.calls
      ≡ Call.update_status o ∷ rest)
    × ((reconcile env key (start pipeline)).0 ≡ joined r (env.update_status rest o))
    × Report env (asked env (passed env sample_laws key gates)) r o
reconcile_reports_example = reconcile_reports env sample_laws key pipeline gates
