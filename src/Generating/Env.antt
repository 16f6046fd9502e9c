-- ===== src/Generating/Env.antt =====
-- The outside world of the generator controller.
use mpas_product_controller.Base.{ℕ, ◌*◌, String, Bool, List, Option}
use mpas_product_controller.Kube.Errors.{Error, Key, wrap, error_text, second}
use mpas_product_controller.Kube.Action.{Outcome, Session, Action, ◌>>◌, fail, modify}
use mpas_product_controller.Kube.Conditions.{Condition, ConditionLib}
use mpas_product_controller.Kube.Store.{Store}
use mpas_product_controller.Api.{
  ObjectMeta, Signature, Component, ResourceReference, ProductDeployment,
  ProductDeploymentGenerator, ProductDeploymentGeneratorStatus, ProductDescription, Validation,
}
use mpas_product_controller.Project.{Project, CommitTemplate, Lookups}
use mpas_product_controller.Generating.Headers.{Node}

-- A file of the configuration language is its text.
abbrev pub File : Type 0
File = String

-- What the controller reads of replicationv1.ComponentSubscription; `component` is the answer of
-- GetComponentVersion.
pub record Subscription : Type 0 where
  pub conditions : List Condition
  pub last_applied_version : String
  pub signature : List Signature
  pub component : Component

-- gitv1alpha1.Sync with the fields of its spec.
pub record SyncRequest : Type 0 where
  pub meta : ObjectMeta
  pub snapshot_ref : String
  pub repository_ref : Key
  pub interval : ℕ
  pub commit_template : CommitTemplate
  pub base_branch : String
  pub pull_request_title : String
  pub automatic_pull_request_creation : Bool
  pub sub_path : String

pub data Call : Type 0 where
  get_generator get_subscription get_project : Key → Call
  get_namespace : String → Call
  authenticate : String → String → Call
  open_component : Component → Call
  close_component get_description make_temp : Call
  get_resource : ResourceReference → Call
  fetch_config generate_name : String → Call
  make_dir create_file close_file remove_all : String → Call
  write_file : String → String → Call
  encode : ProductDeployment → Call
  write_snapshot : ProductDeploymentGenerator → String → List (String × String) → Call
  write_sync : SyncRequest → Call
  write_validation : Validation → Call
  update_status : ProductDeploymentGenerator → Call

-- The library semver is `parse_version`, which gives the parsed version, and the two comparisons.
-- The OCM client is `authenticate` to `resource_data`, on the one component that is open. The
-- configuration language is `new_file` to `format`; a method that changes its file in place gives
-- the new text. Goldmark is `parse_markdown` and `render_markdown`. `unmarshal` is yaml.Unmarshal,
-- `join` is filepath.Join, `sha1_hex` the hexadecimal SHA-1 digest, and the two keys are
-- constants of ocm-controller.
pub record Env : Type 0 where
  pub conditions : ConditionLib
  pub is_not_found : Error → Bool
  pub mpas_system_namespace : String
  pub projects : Lookups Call
  pub get_generator : List Call → Key → Outcome ProductDeploymentGenerator
  pub get_subscription : List Call → Key → Outcome Subscription
  pub parse_version : String → Outcome String
  pub version_equal : String → String → Bool
  pub version_less : String → String → Bool
  pub authenticate : List Call → String → String → Outcome (Unit {0})
  pub open_component : List Call → Component → Outcome (Unit {0})
  pub close_component : List Call → Outcome (Unit {0})
  pub product_description : List Call → Outcome String
  pub resource_data : List Call → ResourceReference → Outcome String
  pub unmarshal : String → Outcome ProductDescription
  pub new_file : String → String → Outcome File
  pub comments : File → String
  pub unify : File → List File → Outcome File
  pub eval_without_private_fields : File → Outcome File
  pub eval : File → Outcome File
  pub merge : File → File → Outcome File
  pub sanitize : File → Outcome File
  pub validate : File → File → Outcome (Unit {0})
  pub format : File → Outcome String
  pub parse_markdown : String → Node
  pub render_markdown : Node → Outcome String
  pub fetch_config : List Call → String → Project → Outcome (Option File)
  pub join : List String → String
  pub make_temp : List Call → Outcome String
  pub make_dir : List Call → String → Outcome (Unit {0})
  pub create_file : List Call → String → Outcome (Unit {0})
  pub write_file : List Call → String → String → Outcome (Unit {0})
  pub remove_all : List Call → String → Outcome (Unit {0})
  pub encode : List Call → ProductDeployment → Outcome (Unit {0})
  pub generate_name : List Call → String → Outcome String
  pub write_snapshot :
      List Call → ProductDeploymentGenerator → String → List (String × String) → Outcome String
  pub component_name_key : String
  pub component_version_key : String
  pub sha1_hex : String → String
  pub set_owner : ObjectMeta → ObjectMeta → Outcome ObjectMeta
  pub syncs : Store Call SyncRequest
  pub validations : Store Call Validation
  pub update_status : List Call → ProductDeploymentGenerator → Outcome (Unit {0})

abbrev pub Run : Type 0 → Type 0
Run = Action (Session Call ProductDeploymentGenerator)

abbrev pub set_status :
    (ProductDeploymentGeneratorStatus → ProductDeploymentGeneratorStatus)
    → ProductDeploymentGenerator
    → ProductDeploymentGenerator
set_status f obj = record obj { status = f obj.status }

abbrev pub on_conditions : (List Condition → List Condition) → Run (Unit {0})
on_conditions f = modify (set_status (λ s. record s { conditions = f s.conditions }))

-- The error is marked as it is, and returned with its context.
unfoldable pub failed : {A : Type 0} → Env → String → String → Error → Run A
failed env reason context err = do
  on_conditions (env.conditions.mark_not_ready reason (error_text err))
  fail (wrap context err)

-- longRequeue
abbrev pub long_requeue : ℕ
long_requeue = 30 * second
