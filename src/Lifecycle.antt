-- ===== src/Lifecycle.antt =====
-- The life of a pipeline object, which the pipeline controller and the scheduler write in turn, and
-- the product deployment controller gives its spec.
pub mod Named
mod Tests
use mpas_product_controller.Base.{◌≡◌, ◌≢◌, String, Option, some, none, []}
use mpas_product_controller.Kube.Errors.{Key}
use mpas_product_controller.Kube.Action.{Session, done}
use mpas_product_controller.Api.{
  ObjectMeta, ProductDeploymentPipeline, ProductDeploymentPipelineSpec,
}
use mpas_product_controller.Scheduler.Reconcile as SchedulerRun
use mpas_product_controller.Scheduler.Env as SchedulerWorld
use mpas_product_controller.Pipeline.Reconcile as PipelineRun
use mpas_product_controller.Pipeline.Env as PipelineWorld

-- One step of the object in the cluster: a run of one of the two controllers that has read it, with
-- any answers of the world outside, and whose patch has arrived; or another spec and other metadata.
pub data Step : ProductDeploymentPipeline → ProductDeploymentPipeline → Type 0 where
  localized :
      {obj : ProductDeploymentPipeline} (env : PipelineWorld.Env) (key : Key)
      (s : Session PipelineWorld.Call ProductDeploymentPipeline)
      → env.get_pipeline s.calls key ≡ done obj
      → Step obj (PipelineRun.reconcile env key s).1.obj
  scheduled :
      {obj : ProductDeploymentPipeline} (env : SchedulerWorld.Env) (key : Key)
      (s : Session SchedulerWorld.Call ProductDeploymentPipeline)
      → env.get_pipeline s.calls key ≡ done obj
      → Step obj (SchedulerRun.reconcile env key s).1.obj
  edited :
      {obj : ProductDeploymentPipeline} (meta : ObjectMeta) (spec : ProductDeploymentPipelineSpec)
      → Step obj (record obj { meta = meta; spec = spec })

-- The objects that are reached from one that was just created, whose status is empty.
pub data Reachable : ProductDeploymentPipeline → Type 0 where
  created :
      (meta : ObjectMeta) (spec : ProductDeploymentPipelineSpec)
      → Reachable (record {
        meta = meta;
        spec = spec;
        status = record {
          observed_generation = 0;
          conditions = [];
          selected_target_ref = none;
          snapshot_ref = none;
        };
      })
  stepped : {obj next : ProductDeploymentPipeline} → Reachable obj → Step obj next → Reachable next
