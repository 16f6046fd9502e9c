-- ===== src/Validating/Tracking.antt =====
-- The methods createValueFileGitRepository and deleteGitRepository.
use mpas_product_controller.Base.{
  ℕ, ◌*◌, String, false, [], Option, none, some, ◌<>◌, if◌then◌else◌, decimal,
}
use mpas_product_controller.Kube.Errors.{Key, wrap, second}
use mpas_product_controller.Kube.Action.{
  Outcome, done, mapped, ◌>>=◌, pure, fail, panic, on_error, fetch, call,
}
use mpas_product_controller.Kube.Store.{create_or_update}
use mpas_product_controller.Api.{Validation}
use mpas_product_controller.Git.{Repository}
use mpas_product_controller.Validating.Env.{Call, Env, Run, GitRepository}

-- defaultValidationRequeue
abbrev default_validation_requeue : ℕ
default_validation_requeue = 5 * second

module _ (env : Env) where
  -- The tracked branch is the head of the pull request, and only the product's configuration.
  abbrev pub tracker : Validation → String → ℕ → Repository → GitRepository
  tracker obj product pull repository = record {
    meta = record {
      name = obj.meta.name <> "-values-repo";
      namespace = obj.meta.namespace;
      labels = [];
      annotations = [];
      owners = [];
      generation = 0;
      created = false;
      deleting = false;
    };
    url = env.repository_url repository;
    secret_name = repository.secret_name;
    interval = default_validation_requeue;
    reference = "refs/pull/" <> decimal pull <> "/head";
    ignore = "# exclude all\n/*\n# include values.yaml\n!/products/" <> product <> "/config.cue\n";
    artifact = none;
  }

  unfoldable pub own : Validation → GitRepository → Outcome GitRepository
  own obj repo =
      if repo.meta.created
      then done repo
      else mapped (λ m. record repo { meta = m })
          (wrap "failed to set controller to git repository object")
          (env.set_controller obj.meta repo.meta)

  unfoldable pub create_tracker : Validation → String → ℕ → Repository → Run Key
  unfolding own
  create_tracker obj product pull repository = do
    repo ←
        on_error
          (create_or_update env.git_repositories Call.write_git_repository (own obj)
            (tracker obj product pull repository))
          (λ e. fail (wrap "failed to create git repository" e))
    pure (record { name = repo.meta.name; namespace = repo.meta.namespace })

  -- The reference is a pointer that the method reads as it is.
  unfoldable pub delete_tracker : Option Key → Run (Unit {0})
  delete_tracker none = panic
  delete_tracker (some ref) =
      fetch env.is_not_found
        (call (Call.get_git_repository ref) (λ calls. env.get_git_repository calls ref)) (pure tt)
        (wrap "failed to find GitRepository object")
        (λ repo.
          call (Call.delete_git_repository repo) (λ calls. env.delete_git_repository calls repo))
