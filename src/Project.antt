-- ===== src/Project.antt =====
-- controllers/get_project_in_namespace.go: the project of an object's namespace.
use mpas_product_controller.Base.{
  String, List, [], ◌∷◌, Option, none, some, ◌==◌, ◌<>◌, if◌then◌else◌,
}
use mpas_product_controller.Kube.Errors.{Key, text, wrap}
use mpas_product_controller.Kube.Action.{Outcome, Session, Action, ◌>>=◌, fail, on_error, call}
use mpas_product_controller.Kube.Conditions.{Condition}

-- projectv1.CommitTemplate
pub record CommitTemplate : Type 0 where
  pub name : String
  pub email : String
  pub message : String

-- What the controllers read of projectv1.Project: the conditions, the IDs of the inventory, the
-- reference to the repository, and the commit template and the default branch of Spec.Git.
pub record Project : Type 0 where
  pub conditions : List Condition
  pub inventory : Option (List String)
  pub repository_ref : Option Key
  pub commit_template : Option CommitTemplate
  pub default_branch : String

-- The two reads, and the constant projectv1.ProjectKey. `get_namespace` answers with the labels.
pub record Lookups (C : Type 0) : Type 0 where
  pub project_key : String
  pub reads_namespace : String → C
  pub reads_project : Key → C
  pub get_namespace : List C → String → Outcome (List (String × String))
  pub get_project : List C → Key → Outcome Project

-- `labels[key]`
abbrev pub label : String → List (String × String) → Option String
label key [] = none
label key ((k, v) ∷ rest) = let more = label key rest in if k == key then some v else more

module _ {C O : Type 0} (env : Lookups C) where
  unfoldable pub project_named : String → Option String → Action (Session C O) Project
  project_named default_namespace none =
      fail (text ("project key " <> env.project_key <> " not found on namespace"))
  project_named default_namespace (some name) =
      on_error
        (call (env.reads_project (record { name = name; namespace = default_namespace }))
          (λ calls. env.get_project calls (record { name = name; namespace = default_namespace })))
        (λ e. fail (wrap "failed to find project in namespace" e))

  -- GetProjectFromObjectNamespace
  unfoldable pub project_from_namespace : String → String → Action (Session C O) Project
  unfolding project_named
  project_from_namespace namespace default_namespace = do
    labels ←
        on_error (call (env.reads_namespace namespace) (λ calls. env.get_namespace calls namespace))
          (λ e. fail (wrap "failed to retrieve namespace for object" e))
    project_named default_namespace (label env.project_key labels)
