-- ===== src/Ocm/Tests.antt =====
-- The client of the OCM library, tests and witnesses.
use mpas_product_controller.Base.{◌≡◌, refl, ◌↔◌, String, [], ◌∷◌, ◌<>◌, ◌==◌, if◌then◌else◌}
use mpas_product_controller.Kube.Errors.{external}
use mpas_product_controller.Kube.Action.{Outcome, Session, ◌>>=◌, done, fails}
use mpas_product_controller.Api.{ResourceReference}
use mpas_product_controller.Ocm.{
  Call, Env, Secret, product_description_type, configure_all, look_up, get_component_version,
  get_resource_data,
}
use mpas_product_controller.Ocm.Credentials.{IsConfigured, configure_all_iff}

abbrev secret : Secret
secret = record { name = "pull"; data_of = (".dockerconfigjson", "{}") ∷ [] }

abbrev bad_version : String → Outcome (Unit {0})
bad_version version = if version == "latest" then fails (external "invalid") else done tt

-- Versions, resources, access methods and streams are texts.
abbrev env : Env String String String String
env = record {
  get_account = λ calls k. done ("pull" ∷ []);
  get_secret = λ calls k. done secret;
  configure = λ calls c. done tt;
  open_repository = λ calls u. done tt;
  check_version = bad_version;
  lookup = λ calls n v. done n;
  select = λ p v. done ("description" ∷ []);
  resolve = λ v n path. done n;
  get_type = λ r. product_description_type;
  access_method = λ r. done r;
  reader = λ m. done m;
  decompress = λ s. done s;
  read_all = λ s. done s;
  quote = λ t. "\"" <> t <> "\"";
  display = λ rs. "0";
}

abbrev start : Session Call (Unit {0})
start = record { obj = tt; calls = [] }

configure_all_iff_example :
    ((configure_all env "project" ("pull" ∷ []) start).0 ≡ done tt)
    ↔ IsConfigured env "project"
        ("pull" ∷ [])
        []
        (configure_all env "project" ("pull" ∷ []) start).1.calls
configure_all_iff_example = configure_all_iff env "project" ("pull" ∷ []) start

version_found : (get_component_version env "url" "c" "1.0.0" start).0 ≡ done "c"
unfolding get_component_version look_up ◌>>=◌
version_found = refl

abbrev reference : ResourceReference
reference = record { name = "rules"; version = "1.0.0"; reference_path = [] }

data_read : (get_resource_data env "c" reference start).0 ≡ done "rules"
unfolding get_resource_data ◌>>=◌
data_read = refl
