-- ===== src/ConfigFile.antt =====
-- controllers/productdeploymentgenerator_controller.go: fetchExistingConfigFile, which the generator
-- and the product deployment controller call.
pub mod Steps
pub mod Found
mod Tests
use mpas_product_controller.Base.{
  String, Bool, List, [], ◌∷◌, ◌++◌, map, Option, none, some, if◌then◌else◌,
}
use mpas_product_controller.Kube.Errors.{Error, Key, text, wrap}
use mpas_product_controller.Kube.Action.{
  Outcome, done, fails, panics, Session, Action, ◌>>=◌, ◌>>◌, pure, fail, panic, lift, on_error,
  attempt, deferring, call,
}
use mpas_product_controller.Project.{Project}
use mpas_product_controller.Inventory.{fetch_git_repository}
use mpas_product_controller.Download.{fetch_file}
use mpas_product_controller.Download

pub data Call : Type 0 where
  get_repository : Key → Call
  archive : Download.Call → Call
  load : String → String → Call
  remove_all : String → Call

-- `get_repository` answers with the URL of the artifact. `load` is cue.New, which reads the file,
-- and `sanitize` its method Sanitize; a file is its text. `archive` is what Download calls, after
-- the calls made before.
pub record Env : Type 0 where
  pub git_repository_kind : String
  pub get_repository : List Call → Key → Outcome (Option String)
  pub archive : List Call → Download.Env
  pub is_not_exist : Error → Bool
  pub load : List Call → String → String → Outcome String
  pub sanitize : String → Outcome String
  pub remove_all : List Call → String → Outcome (Unit {0})

abbrev pub Run : Type 0 → Type 0
Run = Action (Session Call (Unit {0}))

-- A function of Download, with its calls among those of the run.
unfoldable pub within : {A : Type 0} → Env → (Download.Env → Download.Run A) → Run A
within env m s =
    let (r, t) = m (env.archive s.calls) (record { obj = tt; calls = [] }) in
    (r, record s { calls = map Call.archive t.calls ++ s.calls })

module _ (env : Env) where
  unfoldable pub load_file : String → String → Run (Option String)
  load_file product path = do
    file ←
        on_error (call (Call.load product path) (λ calls. env.load calls product path))
          (λ e. fail (wrap "failed to create cue file" e))
    clean ←
        on_error (lift (env.sanitize file))
          (λ e. fail (wrap "failed to sanitize existing values file" e))
    pure (some clean)

  -- The error of RemoveAll is assigned to a variable that is not returned.
  unfoldable pub remove : String → Run (Unit {0})
  remove dir = do attempt (call (Call.remove_all dir) (λ calls. env.remove_all calls dir)); pure tt

  unfoldable pub after_fetch : String → Outcome (String × String) → Run (Option String)
  unfolding load_file remove
  after_fetch product (done (path, dir)) = deferring (load_file product path) (remove dir)
  after_fetch product (fails e) =
      if env.is_not_exist e then pure none else fail (wrap "failed to fetch existing values file" e)
  after_fetch product panics = panic

  unfoldable pub with_artifact : String → Option String → Run (Option String)
  unfolding within after_fetch
  with_artifact product none = fail (text "git repository artifact is empty: %!w(<nil>)")
  with_artifact product (some url) = do
    found ← attempt (within env (λ archive. fetch_file archive url product))
    after_fetch product found

  -- fetchExistingConfigFile
  unfoldable pub fetch_existing_config_file : String → Project → Run (Option String)
  unfolding with_artifact
  fetch_existing_config_file product project = do
    repository ←
        on_error (lift (fetch_git_repository env.git_repository_kind project.inventory))
          (λ e. fail (wrap "failed to fetch GitRepository from project" e))
    artifact ←
        on_error
          (call (Call.get_repository (record { name = repository.0; namespace = repository.1 }))
            (λ calls.
              env.get_repository calls (record { name = repository.0; namespace = repository.1 })))
          (λ e. fail (wrap "failed to fetch git repository" e))
    with_artifact product artifact
