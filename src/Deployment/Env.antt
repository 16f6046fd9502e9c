-- ===== src/Deployment/Env.antt =====
-- The outside world of the product deployment controller.
use mpas_product_controller.Base.{ℕ, String, Bool, List, Option}
use mpas_product_controller.Kube.Errors.{Error, Key}
use mpas_product_controller.Kube.Action.{Outcome, Session, Action, modify}
use mpas_product_controller.Kube.Conditions.{Condition, ConditionLib}
use mpas_product_controller.Kube.Store.{Store}
use mpas_product_controller.Api.{
  ObjectMeta, Signature, ProductDeployment, ProductDeploymentStatus, ProductDeploymentPipeline,
}
use mpas_product_controller.Project.{Project, Lookups}

-- ocmv1alpha1.ComponentVersion
pub record ComponentVersion : Type 0 where
  pub meta : ObjectMeta
  pub interval : ℕ
  pub component : String
  pub repository_url : String
  pub verify : List Signature
  pub expand_references : Bool
  pub service_account_name : String
  pub semver : String

-- corev1.ConfigMap with the one key `values.yaml`.
pub record ConfigMap : Type 0 where
  pub meta : ObjectMeta
  pub values : String

pub data Call : Type 0 where
  get_deployment get_project : Key → Call
  get_namespace fetch_config : String → Call
  write_component_version : ComponentVersion → Call
  list_config_maps list_pipelines : Key → Call
  create_config_map delete_config_map : ConfigMap → Call
  write_pipeline : ProductDeploymentPipeline → Call
  update_status : ProductDeployment → Call

-- A file of the configuration language is its text here: `fetch_config` is fetchExistingConfigFile
-- by the deployment's name, with `none` for nil, `new_file` is whether cue.New accepts a text under
-- a name, `validate`, `merge` and `yaml` are the methods of a file, the first two with the schema
-- second. `sha1_hex` is the hexadecimal SHA-1 digest, `jitter` is jitter.JitteredIntervalDuration.
pub record Env : Type 0 where
  pub conditions : ConditionLib
  pub is_not_found : Error → Bool
  pub mpas_system_namespace : String
  pub projects : Lookups Call
  pub get_deployment : List Call → Key → Outcome ProductDeployment
  pub set_owner : ObjectMeta → ObjectMeta → Outcome ObjectMeta
  pub set_controller : ObjectMeta → ObjectMeta → Outcome ObjectMeta
  pub component_versions : Store Call ComponentVersion
  pub fetch_config : List Call → String → Project → Outcome (Option String)
  pub new_file : String → String → Outcome (Unit {0})
  pub validate : String → String → Outcome (Unit {0})
  pub merge : String → String → Outcome String
  pub yaml : String → Outcome String
  pub sha1_hex : String → String
  pub list_config_maps : List Call → Key → Outcome (List ConfigMap)
  pub create_config_map : List Call → ConfigMap → Outcome (Unit {0})
  pub delete_config_map : List Call → ConfigMap → Outcome (Unit {0})
  pub list_pipelines : List Call → Key → Outcome (List ProductDeploymentPipeline)
  pub pipelines : Store Call ProductDeploymentPipeline
  pub jitter : ℕ → ℕ
  pub update_status : List Call → ProductDeployment → Outcome (Unit {0})

abbrev pub Run : Type 0 → Type 0
Run = Action (Session Call ProductDeployment)

abbrev pub set_status :
    (ProductDeploymentStatus → ProductDeploymentStatus) → ProductDeployment → ProductDeployment
set_status f obj = record obj { status = f obj.status }

abbrev pub on_conditions : (List Condition → List Condition) → Run (Unit {0})
on_conditions f = modify (set_status (λ s. record s { conditions = f s.conditions }))
