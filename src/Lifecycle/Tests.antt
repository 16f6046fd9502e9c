-- ===== src/Lifecycle/Tests.antt =====
-- A pipeline object that is localized and then scheduled, tests and witnesses.
use mpas_product_controller.Base.{true, ◌≡◌, refl, false, [], ◌∷◌, some, none}
use mpas_product_controller.Kube.Action.{Session, ◌>>=◌, done}
use mpas_product_controller.Kube.Store.{create_or_update}
use mpas_product_controller.Kube.Conditions.{condition, holds, ready_condition}
use mpas_product_controller.Kube.Sample.{empty_store, sample}
use mpas_product_controller.Api.{ProductDeploymentPipeline}
use mpas_product_controller.Fixtures.{meta, resource, owner, target, key, pipeline}
use mpas_product_controller.Scheduler.Select.{search, choose, or_system, select_target}
use mpas_product_controller.Scheduler.Reconcile as SchedulerRun
use mpas_product_controller.Scheduler.Env as SchedulerWorld
use mpas_product_controller.Pipeline.Localization.{localize, create_or_update_localization}
use mpas_product_controller.Pipeline.Configuration.{create_or_update_configuration}
use mpas_product_controller.Pipeline.Reconcile as PipelineRun
use mpas_product_controller.Pipeline.Env as PipelineWorld
use mpas_product_controller.Lifecycle.{localized, scheduled, Reachable, created, stepped}
use mpas_product_controller.Lifecycle.Named.{IsSafe, Reachable-IsSafe}

abbrev fresh : ProductDeploymentPipeline
fresh = record {
  meta = record (meta "web") { owners = owner "ProductDeployment" "shop" ∷ [] };
  spec = record pipeline.spec { localization = resource "localization" };
  status = record {
    observed_generation = 0;
    conditions = [];
    selected_target_ref = none;
    snapshot_ref = none;
  };
}

-- The localization has the snapshot `snap`.
abbrev localizer : PipelineWorld.Env
localizer = record {
  conditions = sample;
  is_not_found = λ e. false;
  get_pipeline = λ calls k. done fresh;
  get_owner = λ calls k. done tt;
  set_owner = λ o m. done m;
  localizations = record {
    find = λ calls m. done (some (record m { snapshot_name = "snap" }));
    same = λ a b. true;
    write = λ calls m. done tt;
  };
  configurations = empty_store;
  update_status = λ calls p. done tt;
}

abbrev first : Session PipelineWorld.Call ProductDeploymentPipeline
first = record { obj = fresh; calls = [] }

abbrev published : ProductDeploymentPipeline
published = (PipelineRun.reconcile localizer key first).1.obj

abbrev scheduler : SchedulerWorld.Env
scheduler = record {
  conditions = sample;
  is_not_found = λ e. false;
  mpas_system_namespace = "mpas-system";
  get_pipeline = λ calls k. done published;
  get_snapshot = λ calls k. done (condition ready_condition holds "" "" ∷ []);
  as_selector = λ s. done tt;
  list_targets = λ calls s ns. done (target "one" "kubernetes" ∷ []);
  pick = λ calls n. 0;
  deploy = λ calls p. done tt;
  update_status = λ calls p. done tt;
}

abbrev second : Session SchedulerWorld.Call ProductDeploymentPipeline
second = record { obj = published; calls = [] }

abbrev deployed : ProductDeploymentPipeline
deployed = (SchedulerRun.reconcile scheduler key second).1.obj

-- The second run selects a target.
selected :
    deployed.status.selected_target_ref ≡ some (record { name = "one"; namespace = "project" })
unfolding SchedulerRun.reconcile SchedulerRun.with_ref SchedulerRun.with_snapshot SchedulerRun.place
    SchedulerRun.deploy_to SchedulerRun.patch_status select_target search choose or_system
    PipelineRun.reconcile PipelineRun.patch_status create_or_update_localization
    create_or_update_configuration localize create_or_update ◌>>=◌
selected = refl

reached : Reachable deployed
reached =
    stepped (stepped (created fresh.meta fresh.spec) (localized localizer key first refl))
      (scheduled scheduler key second refl)

Reachable-IsSafe_example : IsSafe deployed
Reachable-IsSafe_example = Reachable-IsSafe deployed reached
