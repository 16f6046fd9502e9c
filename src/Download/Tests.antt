-- ===== src/Download/Tests.antt =====
-- The values file of an artifact, tests and witnesses.
use mpas_product_controller.Base.{◌≡◌, refl, String, true, [], ◌∷◌}
use mpas_product_controller.Kube.Errors.{external}
use mpas_product_controller.Kube.Action.{Session, Outcome, ◌>>=◌, done, fails}
use mpas_product_controller.Download.{
  Call, Env, unpack, fetch_file, read_values, fetch_values_file_content,
}
use mpas_product_controller.Download.Content.{
  looked, fetch_values_file_content_clean, fetch_values_file_content_missing,
}

abbrev content : String
content = "replicas: 2"

-- The artifact holds the file, or not.
abbrev env : Outcome (Unit {0}) → Env
env answer = record {
  new_request = λ u. done tt;
  download = λ calls u. done tt;
  make_temp = λ calls. done "/tmp/artifact1";
  untar = λ calls d. done tt;
  join = λ parts. "/tmp/artifact1/products/shop/config.cue";
  stat = λ calls p. answer;
  is_not_exist = λ e. true;
  read_file = λ calls p. done content;
  remove_all = λ calls d. done tt;
}

abbrev start : Session Call (Unit {0})
start = record { obj = tt; calls = [] }

fetched : (fetch_values_file_content (env (done tt)) "shop" "http://source" start).0 ≡ done content
unfolding fetch_values_file_content fetch_file unpack read_values ◌>>=◌
fetched = refl

fetch_values_file_content_clean_example :
    (dir : String) × (done content ≡ done content)
    × ((fetch_values_file_content (env (done tt)) "shop" "http://source" start).1.calls
        ≡ Call.remove_all dir
          ∷ Call.read_file "/tmp/artifact1/products/shop/config.cue"
          ∷ looked (env (done tt)) "shop" "http://source" start dir)
fetch_values_file_content_clean_example =
    fetch_values_file_content_clean (env (done tt)) "shop" "http://source" start content fetched

fetch_values_file_content_missing_example :
    ((fetch_values_file_content (env (fails (external "gone"))) "shop" "http://source" start).0
      ≡ fails (external "gone"))
    × ((fetch_values_file_content
          (env (fails (external "gone")))
          "shop"
          "http://source"
          start).1.calls
        ≡ looked (env (fails (external "gone"))) "shop" "http://source" start "/tmp/artifact1")
fetch_values_file_content_missing_example =
    fetch_values_file_content_missing (env (fails (external "gone"))) "shop" "http://source" start
      "/tmp/artifact1" (external "gone") refl refl refl refl refl refl
