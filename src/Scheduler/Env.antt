-- ===== src/Scheduler/Env.antt =====
-- The outside world of the scheduler: the cluster, the clock's random number, the deployer and the
-- packages that it calls.
use mpas_product_controller.Base.{ℕ, ◌<◌, String, Bool, List}
use mpas_product_controller.Kube.Errors.{Error, Key}
use mpas_product_controller.Kube.Action.{Outcome, Session, Action}
use mpas_product_controller.Kube.Conditions.{Condition, ConditionLib}
use mpas_product_controller.Api.{LabelSelector, Target, ProductDeploymentPipeline}

-- The calls that leave the program, in the order of the code.
pub data Call : Type 0 where
  get_pipeline get_snapshot : Key → Call
  list_targets : String → LabelSelector → Call
  deploy : ProductDeploymentPipeline → Call
  event : String → Call
  update_status : ProductDeploymentPipeline → Call

-- What each call is answered, given the calls before it. `get_snapshot` answers with the conditions
-- of the snapshot, `as_selector` is v1.LabelSelectorAsSelector, `pick n` is `rand.Intn(n)`, and
-- `deploy` is the method of the interface deployers.Deployer.
pub record Env : Type 0 where
  pub conditions : ConditionLib
  pub is_not_found : Error → Bool
  pub mpas_system_namespace : String
  pub get_pipeline : List Call → Key → Outcome ProductDeploymentPipeline
  pub get_snapshot : List Call → Key → Outcome (List Condition)
  pub as_selector : LabelSelector → Outcome (Unit {0})
  pub list_targets : List Call → LabelSelector → String → Outcome (List Target)
  pub pick : List Call → ℕ → ℕ
  pub deploy : List Call → ProductDeploymentPipeline → Outcome (Unit {0})
  pub update_status : List Call → ProductDeploymentPipeline → Outcome (Unit {0})

-- `rand.Intn(n)` is below `n`.
abbrev pub PicksBelow : Env → Type 0
PicksBelow env = (calls : List Call) (n : ℕ) → 0 < n → env.pick calls n < n

abbrev pub Run : Type 0 → Type 0
Run = Action (Session Call ProductDeploymentPipeline)
