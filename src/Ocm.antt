-- ===== src/Ocm.antt =====
-- pkg/ocm/ocm.go: the client of the OCM library.
pub mod Credentials
pub mod Reading
mod Tests
use mpas_product_controller.Base.{
  String, Bool, List, [], ◌∷◌, Option, none, some, ◌==◌, ◌<>◌, if◌then◌else◌,
}
use mpas_product_controller.Kube.Errors.{Error, Key, text, wrap}
use mpas_product_controller.Kube.Action.{
  Outcome, Session, Action, ◌>>=◌, ◌>>◌, pure, fail, lift, on_error, deferring, call, tell,
}
use mpas_product_controller.Api.{ResourceReference}

-- corev1.Secret
pub record Secret : Type 0 where
  pub name : String
  pub data_of : List (String × String)

pub data Call : Type 0 where
  get_account get_secret : Key → Call
  configure open_repository : String → Call
  lookup : String → String → Call
  close_repository close_stream : Call

-- The library: a component version, a resource in it, and a stream of bytes. `get_account` answers
-- with the names of the image pull secrets, `configure` is RepositoryForSpec of the credentials
-- context, `check_version` is semver.NewVersion, `select` GetResourcesByResourceSelectors, `resolve`
-- ResolveResourceReference with the repository of the component version, and `decompress`
-- AutoDecompress. `display` prints a length, and `quote` a
-- text in quotes.
pub record Env (Version Resource Method Stream : Type 0) : Type 0 where
  pub get_account : List Call → Key → Outcome (List String)
  pub get_secret : List Call → Key → Outcome Secret
  pub configure : List Call → String → Outcome (Unit {0})
  pub open_repository : List Call → String → Outcome (Unit {0})
  pub check_version : String → Outcome (Unit {0})
  pub lookup : List Call → String → String → Outcome Version
  pub select : (Resource → Bool) → Version → Outcome (List Resource)
  pub resolve : Version → String → List (List (String × String)) → Outcome Resource
  pub get_type : Resource → String
  pub access_method : Resource → Outcome Method
  pub reader : Method → Outcome Stream
  pub decompress : Stream → Outcome Stream
  pub read_all : Stream → Outcome String
  pub quote : String → String
  pub display : List Resource → String

abbrev pub Run : Type 0 → Type 0
Run = Action (Session Call (Unit {0}))

abbrev pub docker_config_key : String
docker_config_key = ".dockerconfigjson"

abbrev pub product_description_type : String
product_description_type = "productdescription.mpas.ocm.software"

-- `data[key]`
abbrev pub entry : String → List (String × String) → Option String
entry key [] = none
entry key ((k, v) ∷ rest) = let more = entry key rest in if k == key then some v else more

module _ {Version Resource Method Stream : Type 0} (env : Env Version Resource Method Stream) where
  abbrev pub with_config : Secret → Option String → Run (Unit {0})
  with_config secret none =
      fail (text ("failed to find .dockerconfigjson in secret " <> secret.name))
  with_config secret (some config) =
      on_error (call (Call.configure config) (λ calls. env.configure calls config))
        (λ e. fail (wrap "failed to configure credentials for repository" e))

  -- One turn of the loop.
  unfoldable pub configure_secret : String → String → Run (Unit {0})
  configure_secret namespace name = do
    secret ←
        on_error
          (call (Call.get_secret (record { name = name; namespace = namespace }))
            (λ calls. env.get_secret calls (record { name = name; namespace = namespace })))
          (λ e. fail (wrap "failed to get image pull secret" e))
    with_config secret (entry docker_config_key secret.data_of)

  -- The loop over the image pull secrets.
  unfoldable pub configure_all : String → List String → Run (Unit {0})
  configure_all namespace [] = pure tt
  configure_all namespace (name ∷ names) =
      let rest = configure_all namespace names in (configure_secret namespace name >> rest)

  unfoldable pub configure_service_account_access : String → String → Run (Unit {0})
  configure_service_account_access account namespace = do
    secrets ←
        on_error
          (call (Call.get_account (record { name = account; namespace = namespace }))
            (λ calls. env.get_account calls (record { name = account; namespace = namespace })))
          (λ e. fail (wrap "failed to fetch service account" e))
    configure_all namespace secrets

  -- CreateAuthenticatedOCMContext; the context is the trail of the configured credentials.
  unfoldable pub create_authenticated_ocm_context : String → String → Run (Unit {0})
  create_authenticated_ocm_context account namespace =
      on_error (configure_service_account_access account namespace)
        (λ e. fail (wrap "failed to configure service account access" e))

  -- Behind the deferred Close.
  unfoldable pub look_up : String → String → Run Version
  look_up name version = do
    on_error (lift (env.check_version version))
        (λ e. fail (wrap ("version " <> env.quote version <> " is invalid") e))
    on_error (call (Call.lookup name version) (λ calls. env.lookup calls name version))
        (λ e. fail (wrap "failed to look up component Version" e))

  unfoldable pub get_component_version : String → String → String → Run Version
  unfolding look_up
  get_component_version url name version = do
    on_error (call (Call.open_repository url) (λ calls. env.open_repository calls url))
        (λ e. fail (wrap "failed to get repository for spec" e))
    deferring (look_up name version) (tell Call.close_repository)

  abbrev pub is_description : Resource → Bool
  is_description resource = env.get_type resource == product_description_type

  -- From the resource to its content; nothing closes the stream.
  unfoldable pub read_description : List Resource → Run String
  read_description (resource ∷ []) = do
    method ←
        on_error (lift (env.access_method resource))
          (λ e. fail (wrap "failed to get access method for product description" e))
    reader ←
        on_error (lift (env.reader method))
          (λ e. fail (wrap "failed to get product description content" e))
    stream ←
        on_error (lift (env.decompress reader))
          (λ e. fail (wrap "failed to get decompressed reader" e))
    on_error (lift (env.read_all stream))
        (λ e. fail (wrap "failed to read content for product description" e))
  read_description resources = fail (
      text (
        "number of product descriptions in component should be 1 but was: "
        <> env.display resources))

  unfoldable pub get_product_description : Version → Run String
  unfolding read_description
  get_product_description version = do
    resources ←
        on_error (lift (env.select is_description version))
          (λ e. fail (wrap "failed to get resource by selector" e))
    read_description resources

  -- The version of the reference is not read.
  unfoldable pub get_resource_data : Version → ResourceReference → Run String
  get_resource_data version ref = do
    resource ←
        on_error (lift (env.resolve version ref.name ref.reference_path))
          (λ e. fail (wrap "failed to resolve reference path to resource" e))
    method ←
        on_error (lift (env.access_method resource))
          (λ e. fail (wrap "failed to fetch access method for resource" e))
    reader ←
        on_error (lift (env.reader method))
          (λ e. fail (wrap "failed to fetch reader for resource" e))
    stream ←
        on_error (lift (env.decompress reader)) (λ e. fail (wrap "failed to auto decompress" e))
    deferring
        (on_error (lift (env.read_all stream)) (λ e. fail (wrap "failed to read resource data" e)))
        (tell Call.close_stream)
