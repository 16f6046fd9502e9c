-- ===== src/Validators/Chain.antt =====
-- The chain of validators: each passes a repository of another provider on to the next.
use mpas_product_controller.Base.{String, Bool, List, [], ◌∷◌, ◌!=◌, ◌<>◌, if◌then◌else◌}
use mpas_product_controller.Kube.Errors.{text}
use mpas_product_controller.Kube.Action.{fail}
use mpas_product_controller.Git.{Repository, Sync}
use mpas_product_controller.Validators.Hosts.{
  Env, Run, github_is_done, github_set_status, gitea_is_done, gitea_set_status,
}

-- A Validator of the package github or gitea. The chain of NewValidator calls is the list of them,
-- with a nil Next at its end.
pub data Host : Type 0 where
  github gitea : Host

-- The constant `provider` of the package.
abbrev pub provider : Host → String
provider github = "github"
provider gitea = "gitea"

module _ (env : Env) where
  abbrev pub set_status : Host → Repository → Sync → String → Run (Unit {0})
  set_status github repository sync status =
      github_set_status env repository sync.pull_request_id status
  set_status gitea repository sync status =
      gitea_set_status env repository sync.pull_request_id status

  abbrev pub is_done : Host → Repository → Sync → Run Bool
  is_done github = github_is_done env
  is_done gitea = gitea_is_done env

  abbrev pub unsupported : {A : Type 0} → Repository → Run A
  unsupported repository =
      fail (text (repository.provider <> " not supported, and no next validator configured"))

  -- The state "error" is spelled the same by both packages.
  unfoldable pub fail_validation : Host → List Host → Repository → Sync → Run (Unit {0})
  fail_validation v [] repository sync =
      if repository.provider != provider v
      then unsupported repository
      else set_status v repository sync "error"
  fail_validation v (next ∷ chain) repository sync =
      let skipped = fail_validation next chain repository sync in
      if repository.provider != provider v then skipped else set_status v repository sync "error"

  unfoldable pub pass_validation : Host → List Host → Repository → Sync → Run (Unit {0})
  pass_validation v [] repository sync =
      if repository.provider != provider v
      then unsupported repository
      else set_status v repository sync "success"
  pass_validation v (next ∷ chain) repository sync =
      let skipped = pass_validation next chain repository sync in
      if repository.provider != provider v then skipped else set_status v repository sync "success"

  unfoldable pub is_merged_or_closed : Host → List Host → Repository → Sync → Run Bool
  is_merged_or_closed v [] repository sync =
      if repository.provider != provider v
      then unsupported repository
      else is_done v repository sync
  is_merged_or_closed v (next ∷ chain) repository sync =
      let skipped = is_merged_or_closed next chain repository sync in
      if repository.provider != provider v then skipped else is_done v repository sync
