-- ===== src/Validators/Hosts.antt =====
-- The calls of the code hosts, and the packages' private methods.
use mpas_product_controller.Base.{
  ℕ, String, Bool, false, ◌||◌, List, [], ◌∷◌, Option, none, some, ◌==◌, ◌<>◌, if◌then◌else◌,
}
use mpas_product_controller.Kube.Errors.{Key, text, wrap}
use mpas_product_controller.Kube.Action.{
  Outcome, mapped, Session, Action, ◌>>=◌, ◌>>◌, pure, fail, lift, index, on_error, call,
}
use mpas_product_controller.Git.{Repository, Sync}

-- What the validators read of a pull request: the merged flag and the SHA of the head are pointers
-- on GitHub, and `closed` is whether there is a date.
pub record PullRequest : Type 0 where
  pub merged : Option Bool
  pub closed : Bool
  pub sha : Option String

pub data Call : Type 0 where
  get_secret : Key → Call
  get_github_pull : String → String → String → ℕ → Call
  get_gitea_pull : String → String → String → String → ℕ → Call
  create_github_status : String → String → String → String → String → String → Call
  create_gitea_status : String → String → String → String → String → String → Call

-- A URL as net/url parses it: its scheme, and the text that String gives for another scheme.
pub record Url : Type 0 where
  pub scheme : String
  pub with_scheme : String → String

-- A secret is its data. A GitHub call is given the token; a Gitea call the address and the token.
-- `new_gitea_client` is gitea.NewClient, which looks the server up.
pub record Env : Type 0 where
  pub get_secret : List Call → Key → Outcome (List (String × String))
  pub get_github_pull : List Call → String → String → String → ℕ → Outcome PullRequest
  pub create_github_status :
      List Call → String → String → String → String → String → String → Outcome (Unit {0})
  pub parse_url : String → Outcome Url
  pub new_gitea_client : List Call → String → String → Outcome (Unit {0})
  pub get_gitea_pull : List Call → String → String → String → String → ℕ → Outcome PullRequest
  pub create_gitea_status :
      List Call → String → String → String → String → String → String → Outcome (Unit {0})

abbrev pub Run : Type 0 → Type 0
Run = Action (Session Call (Unit {0}))

abbrev status_check_name : String
status_check_name = "mpas/validation-check"

abbrev default_domain : String
default_domain = "gitea.com"

abbrev password_of : List (String × String) → Option String
password_of [] = none
password_of ((k, v) ∷ data_) =
    let more = password_of data_ in if k == "password" then some v else more

abbrev deref : Option Bool → Bool
deref none = false
deref (some b) = b

module _ (env : Env) where
  abbrev token_or : Option String → Run String
  token_or none = fail (text "password not found in secret")
  token_or (some token) = pure token

  -- retrieveAccessToken, the same in both packages.
  unfoldable pub retrieve_access_token : Repository → Run String
  retrieve_access_token repository = do
    data_ ←
        on_error
          (call
            (Call.get_secret
              (record { name = repository.secret_name; namespace = repository.meta.namespace }))
            (λ calls.
              env.get_secret calls
                (record { name = repository.secret_name; namespace = repository.meta.namespace })))
          (λ e. fail (wrap "failed to get secret" e))
    token_or (password_of data_)

  unfoldable pub token : Repository → Run String
  unfolding retrieve_access_token
  token repository =
      on_error (retrieve_access_token repository) (λ e. fail (wrap "failed to retrieve token" e))

  unfoldable pub github_pull : Repository → ℕ → String → Run PullRequest
  github_pull repository pull secret =
      on_error
        (call (Call.get_github_pull secret repository.owner repository.meta.name pull)
          (λ calls. env.get_github_pull calls secret repository.owner repository.meta.name pull))
        (λ e. fail (wrap "failed to find PR" e))

  unfoldable pub github_is_done : Repository → Sync → Run Bool
  unfolding token github_pull
  github_is_done repository sync = do
    secret ← token repository
    pr ← github_pull repository sync.pull_request_id secret
    pure (deref pr.merged || pr.closed)

  -- createCheckRunStatus: the status goes to the commit at the head of the pull request.
  unfoldable pub github_set_status : Repository → ℕ → String → Run (Unit {0})
  unfolding token github_pull
  github_set_status repository pull status = do
    secret ← token repository
    pr ← github_pull repository pull secret
    sha ← index pr.sha
    on_error
        (call
          (Call.create_github_status repository.owner repository.meta.name sha status
            "MPAS Validation Check" status_check_name)
          (λ calls.
            env.create_github_status calls repository.owner repository.meta.name sha status
              "MPAS Validation Check" status_check_name))
        (λ e. fail (wrap "failed to create status for pr" e))

  -- parseDomainURL
  unfoldable pub parse_domain_url : String → Bool → Outcome String
  parse_domain_url domain insecure =
      mapped
        (λ u.
          if u.scheme == ""
          then u.with_scheme (if insecure then "http" else "https")
          else u.with_scheme u.scheme)
        (wrap "failed to parse url") (env.parse_url domain)

  unfoldable pub gitea_domain : Repository → Run String
  unfolding parse_domain_url
  gitea_domain repository =
      if repository.domain == ""
      then pure default_domain
      else on_error (lift (parse_domain_url repository.domain repository.insecure))
          (λ e. fail (wrap ("failed to parse repository url " <> repository.domain) e))

  -- The token, the client and the pull request; the address and the token are passed on.
  unfoldable pub gitea_pull : Repository → ℕ → Run (String × PullRequest)
  unfolding token gitea_domain
  gitea_pull repository pull = do
    secret ← token repository
    domain ← gitea_domain repository
    on_error (λ s. (env.new_gitea_client s.calls domain secret, s))
        (λ e. fail (wrap "failed to create gitea client" e))
    pr ←
        on_error
          (call (Call.get_gitea_pull domain secret repository.owner repository.meta.name pull)
            (λ calls.
              env.get_gitea_pull calls domain secret repository.owner repository.meta.name pull))
          (λ e. fail (wrap "failed to find PR" e))
    pure (domain, pr)

  unfoldable pub gitea_is_done : Repository → Sync → Run Bool
  unfolding gitea_pull
  gitea_is_done repository sync = do
    found ← gitea_pull repository sync.pull_request_id
    pure (deref found.1.merged || found.1.closed)

  unfoldable pub gitea_set_status : Repository → ℕ → String → Run (Unit {0})
  unfolding gitea_pull
  gitea_set_status repository pull status = do
    found ← gitea_pull repository pull
    sha ← index found.1.sha
    on_error
        (call
          (Call.create_gitea_status repository.owner repository.meta.name sha status
            "MPAS Validation Check" status_check_name)
          (λ calls.
            env.create_gitea_status calls repository.owner repository.meta.name sha status
              "MPAS Validation Check" status_check_name))
        (λ e. fail (wrap "failed to create status for pr" e))
