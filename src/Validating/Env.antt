-- ===== src/Validating/Env.antt =====
-- The outside world of the validation controller.
use mpas_product_controller.Base.{ℕ, String, Bool, List, Option}
use mpas_product_controller.Kube.Errors.{Error, Key}
use mpas_product_controller.Kube.Action.{Outcome, Session, Action, modify}
use mpas_product_controller.Kube.Conditions.{Condition, ConditionLib}
use mpas_product_controller.Kube.Store.{Store}
use mpas_product_controller.Api.{ObjectMeta, Validation, ValidationStatus}
use mpas_product_controller.Git.{Repository, Sync}
use mpas_product_controller.Project.{Lookups}

-- sourcev1.Artifact
pub record Artifact : Type 0 where
  pub url : String
  pub digest : String

-- sourcebeta2.GitRepository
pub record GitRepository : Type 0 where
  pub meta : ObjectMeta
  pub url : String
  pub secret_name : String
  pub interval : ℕ
  pub reference : String
  pub ignore : String
  pub artifact : Option Artifact

pub data Call : Type 0 where
  get_validation get_sync get_project get_repository get_git_repository : Key → Call
  get_namespace : String → Call
  write_git_repository delete_git_repository : GitRepository → Call
  is_merged_or_closed pass_validation : Repository → Sync → Call
  fetch_values : String → Artifact → Call
  update_status : Validation → Call

-- `new_file` is cue.New: whether the text, under the name, is a file of the configuration language.
-- `validate` is the method Validate of the file of the first text with the schema of the second.
pub record Env : Type 0 where
  pub conditions : ConditionLib
  pub is_not_found : Error → Bool
  pub mpas_system_namespace : String
  pub projects : Lookups Call
  pub get_validation : List Call → Key → Outcome Validation
  pub get_sync : List Call → Key → Outcome Sync
  pub get_repository : List Call → Key → Outcome Repository
  pub get_git_repository : List Call → Key → Outcome GitRepository
  pub repository_url : Repository → String
  pub set_controller : ObjectMeta → ObjectMeta → Outcome ObjectMeta
  pub git_repositories : Store Call GitRepository
  pub delete_git_repository : List Call → GitRepository → Outcome (Unit {0})
  pub is_merged_or_closed : List Call → Repository → Sync → Outcome Bool
  pub pass_validation : List Call → Repository → Sync → Outcome (Unit {0})
  pub fetch_values : List Call → String → Artifact → Outcome String
  pub new_file : String → String → Outcome (Unit {0})
  pub validate : String → String → Outcome (Unit {0})
  pub update_status : List Call → Validation → Outcome (Unit {0})

abbrev pub Run : Type 0 → Type 0
Run = Action (Session Call Validation)

abbrev pub set_status : (ValidationStatus → ValidationStatus) → Validation → Validation
set_status f obj = record obj { status = f obj.status }

abbrev pub on_conditions : (List Condition → List Condition) → Run (Unit {0})
on_conditions f = modify (set_status (λ s. record s { conditions = f s.conditions }))
