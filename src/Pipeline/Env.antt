-- ===== src/Pipeline/Env.antt =====
-- The outside world of the pipeline controller.
use mpas_product_controller.Base.{ℕ, ◌*◌, Bool, List}
use mpas_product_controller.Kube.Errors.{Error, Key, second}
use mpas_product_controller.Kube.Action.{Outcome, Session, Action, modify}
use mpas_product_controller.Kube.Conditions.{Condition, ConditionLib}
use mpas_product_controller.Kube.Store.{Store}
use mpas_product_controller.Api.{
  ObjectMeta, ProductDeploymentPipeline, ProductDeploymentPipelineStatus,
}
use mpas_product_controller.Pipeline.Objects.{Mutation}

pub data Call : Type 0 where
  get_pipeline get_owner : Key → Call
  write_localization write_configuration : Mutation → Call
  update_status : ProductDeploymentPipeline → Call

-- `set_owner` is controllerutil.SetOwnerReference on the metadata of the owner and the object.
pub record Env : Type 0 where
  pub conditions : ConditionLib
  pub is_not_found : Error → Bool
  pub get_pipeline : List Call → Key → Outcome ProductDeploymentPipeline
  pub get_owner : List Call → Key → Outcome (Unit {0})
  pub set_owner : ObjectMeta → ObjectMeta → Outcome ObjectMeta
  pub localizations : Store Call Mutation
  pub configurations : Store Call Mutation
  pub update_status : List Call → ProductDeploymentPipeline → Outcome (Unit {0})

abbrev pub Run : Type 0 → Type 0
Run = Action (Session Call ProductDeploymentPipeline)

-- defaultPipelineRequeue
abbrev pub default_pipeline_requeue : ℕ
default_pipeline_requeue = 600 * second

-- quickRequeue
abbrev pub quick_requeue : ℕ
quick_requeue = 10 * second

abbrev pub set_status :
    (ProductDeploymentPipelineStatus → ProductDeploymentPipelineStatus)
    → ProductDeploymentPipeline
    → ProductDeploymentPipeline
set_status f obj = record obj { status = f obj.status }

abbrev pub on_conditions : (List Condition → List Condition) → Run (Unit {0})
on_conditions f = modify (set_status (λ s. record s { conditions = f s.conditions }))
