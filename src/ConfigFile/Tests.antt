-- ===== src/ConfigFile/Tests.antt =====
-- The existing configuration, tests and witnesses.
use mpas_product_controller.Base.{◌≡◌, refl, true, [], ◌∷◌, some, none}
use mpas_product_controller.Kube.Errors.{external}
use mpas_product_controller.Kube.Action.{Session, Outcome, ◌>>=◌, done, fails}
use mpas_product_controller.Project.{Project}
use mpas_product_controller.Inventory.{scan, fetch_git_repository}
use mpas_product_controller.Inventory.Split.{split}
use mpas_product_controller.Download.{unpack, fetch_file}
use mpas_product_controller.Download
use mpas_product_controller.ConfigFile.{Call, Env, fetch_existing_config_file}
use mpas_product_controller.ConfigFile.Found.{
  IsLoaded, IsMissing, fetch_existing_config_file-IsLoaded, fetch_existing_config_file-IsMissing,
}

-- The artifact holds the file, or not.
abbrev archive : Outcome (Unit {0}) → Download.Env
archive answer = record {
  new_request = λ u. done tt;
  download = λ calls u. done tt;
  make_temp = λ calls. done "tmp";
  untar = λ calls d. done tt;
  join = λ parts. "tmp/products/shop/config.cue";
  stat = λ calls p. answer;
  is_not_exist = λ e. true;
  read_file = λ calls p. done "";
  remove_all = λ calls d. done tt;
}

abbrev env : Outcome (Unit {0}) → Env
env answer = record {
  git_repository_kind = "GitRepository";
  get_repository = λ calls k. done (some "http://source");
  archive = λ calls. archive answer;
  is_not_exist = λ e. true;
  load = λ calls name path. done "replicas: 2";
  sanitize = λ f. done f;
  remove_all = λ calls d. fails (external "busy");
}

abbrev project : Project
project = record {
  conditions = [];
  inventory = some ("mpas-system_repo_source.toolkit.fluxcd.io_GitRepository" ∷ []);
  repository_ref = none;
  commit_template = none;
  default_branch = "main";
}

abbrev start : Session Call (Unit {0})
start = record { obj = tt; calls = [] }

-- The error of RemoveAll is lost.
loaded :
    (fetch_existing_config_file (env (done tt)) "shop" project start).0 ≡ done (some "replicas: 2")
unfolding fetch_existing_config_file fetch_git_repository fetch_file unpack ◌>>=◌ scan split
loaded = refl

missing :
    (fetch_existing_config_file (env (fails (external "gone"))) "shop" project start).0 ≡ done none
unfolding fetch_existing_config_file fetch_git_repository fetch_file unpack ◌>>=◌ scan split
missing = refl

fetch_existing_config_file-IsLoaded_example :
    IsLoaded
      (env (done tt))
      "shop"
      project
      "replicas: 2"
      start
      (fetch_existing_config_file (env (done tt)) "shop" project start).1.calls
fetch_existing_config_file-IsLoaded_example =
    fetch_existing_config_file-IsLoaded (env (done tt)) "shop" project "replicas: 2" start loaded

fetch_existing_config_file-IsMissing_example :
    IsMissing (env (fails (external "gone"))) "shop" project start
fetch_existing_config_file-IsMissing_example =
    fetch_existing_config_file-IsMissing (env (fails (external "gone"))) "shop" project start
      missing
