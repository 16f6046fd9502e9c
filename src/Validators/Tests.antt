-- ===== src/Validators/Tests.antt =====
-- The chain of the program, which asks GitHub's validator first: tests and witnesses.
use mpas_product_controller.Base.{◌≡◌, ◌⊎◌, refl, true, false, [], ◌∷◌, some, Contains}
use mpas_product_controller.Kube.Action.{◌>>=◌, done}
use mpas_product_controller.Fixtures.{meta}
use mpas_product_controller.Git.{Repository, Sync}
use mpas_product_controller.Validators.Hosts.{
  Env, token, retrieve_access_token, gitea_domain, parse_domain_url, gitea_pull, gitea_is_done,
}
use mpas_product_controller.Validators.Chain.{Host, gitea, github, is_merged_or_closed}
use mpas_product_controller.Validators.Choice.{Answers, Refuses, chain-Answers}

abbrev repository : Repository
repository = record {
  meta = meta "repo";
  provider = "gitea";
  owner = "o";
  domain = "gitea.local";
  insecure = true;
  secret_name = "s";
}

abbrev sync : Sync
sync = record { meta = meta "web"; conditions = []; pull_request_id = 7 }

abbrev env : Env
env = record {
  get_secret = λ calls k. done (("password", "token") ∷ []);
  get_github_pull =
      λ calls t o r n. done (record { merged = some false; closed = false; sha = some "sha" });
  create_github_status = λ calls o r h s d c. done tt;
  parse_url = λ u. done (record { scheme = ""; with_scheme = λ s. u });
  new_gitea_client = λ calls d t. done tt;
  get_gitea_pull =
      λ calls d t o r n. done (record { merged = some true; closed = true; sha = some "sha" });
  create_gitea_status = λ calls o r h s d c. done tt;
}

asks_gitea :
    (is_merged_or_closed env github
      (gitea ∷ [])
      repository
      sync
      (record { obj = tt; calls = [] })).0
    ≡ done true
unfolding is_merged_or_closed gitea_is_done gitea_pull gitea_domain parse_domain_url token
    retrieve_access_token ◌>>=◌
asks_gitea = refl

chain-Answers_example :
    ((w : Host) × Contains w (github ∷ gitea ∷ [])
      × Answers env repository sync github (gitea ∷ []) w)
    ⊎ Refuses env repository sync github (gitea ∷ [])
chain-Answers_example = chain-Answers env repository sync github (gitea ∷ [])
