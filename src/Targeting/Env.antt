-- ===== src/Targeting/Env.antt =====
-- The outside world of the target controller.
use mpas_product_controller.Base.{ℕ, String, Bool, List}
use mpas_product_controller.Kube.Errors.{Error, Key}
use mpas_product_controller.Kube.Action.{Outcome, Session, Action, modify}
use mpas_product_controller.Kube.Conditions.{Condition, ConditionLib}
use mpas_product_controller.Kube.Store.{Store}
use mpas_product_controller.Api.{ObjectMeta, Target, KubernetesAccess}

-- corev1.ServiceAccount; a pull secret is its name.
pub record ServiceAccount : Type 0 where
  pub meta : ObjectMeta
  pub image_pull_secrets : List String

pub data Call : Type 0 where
  get_target : Key → Call
  patch : Target → Bool → Call
  write_namespace : ObjectMeta → Call
  list_secrets : List (String × String) → String → Call
  write_service_account : ServiceAccount → Call
  event : String → String → String → Call

-- `unmarshal` is yaml.Unmarshal into the access. `list_secrets` answers with the names. The patch is
-- given the option that writes the observed generation or not.
pub record Env : Type 0 where
  pub conditions : ConditionLib
  pub is_not_found : Error → Bool
  pub get_target : List Call → Key → Outcome Target
  pub patch : List Call → Target → Bool → Outcome (Unit {0})
  pub unmarshal : String → Outcome KubernetesAccess
  pub namespaces : Store Call ObjectMeta
  pub list_secrets : List Call → List (String × String) → String → Outcome (List String)
  pub service_accounts : Store Call ServiceAccount
  pub jitter : ℕ → ℕ

abbrev pub Run : Type 0 → Type 0
Run = Action (Session Call Target)

abbrev pub set_conditions : (List Condition → List Condition) → Target → Target
set_conditions f obj = record obj {
  status = record obj.status { conditions = f obj.status.conditions };
}

abbrev pub on_conditions : (List Condition → List Condition) → Run (Unit {0})
on_conditions f = modify (set_conditions f)
