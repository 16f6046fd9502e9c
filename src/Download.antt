-- ===== src/Download.antt =====
-- The values file of an artifact: controllers/fetch_values_file_content.go.
pub mod Content
mod Tests
use mpas_product_controller.Base.{String, Bool, List, [], ◌∷◌, if◌then◌else◌}
use mpas_product_controller.Kube.Errors.{Error, wrap}
use mpas_product_controller.Kube.Action.{
  Outcome, done, fails, panics, Session, Action, ◌>>=◌, ◌>>◌, pure, fail, panic, lift, on_error,
  attempt, deferring, call, tell,
}

pub data Call : Type 0 where
  download : String → Call
  make_temp close_body : Call
  untar stat read_file remove_all : String → Call

-- The packages net/http, os and untar; `join` is filepath.Join, and the body of the one response is
-- what `untar` unpacks.
pub record Env : Type 0 where
  pub new_request : String → Outcome (Unit {0})
  pub download : List Call → String → Outcome (Unit {0})
  pub make_temp : List Call → Outcome String
  pub untar : List Call → String → Outcome (Unit {0})
  pub join : List String → String
  pub stat : List Call → String → Outcome (Unit {0})
  pub is_not_exist : Error → Bool
  pub read_file : List Call → String → Outcome String
  pub remove_all : List Call → String → Outcome (Unit {0})

abbrev pub Run : Type 0 → Type 0
Run = Action (Session Call (Unit {0}))

module _ (env : Env) where
  abbrev pub path_in : String → String → String
  path_in temp product = env.join (temp ∷ "products" ∷ product ∷ "config.cue" ∷ [])

  -- Only a file that does not exist is an error here.
  abbrev checked : String → String → Outcome (Unit {0}) → Run (String × String)
  checked path temp (done u) = pure (path, temp)
  checked path temp (fails e) = if env.is_not_exist e then fail e else pure (path, temp)
  checked path temp panics = panic

  unfoldable pub unpack : String → Run (String × String)
  unpack product = do
    temp ←
        on_error (call Call.make_temp env.make_temp)
          (λ e. fail (wrap "failed to create temporary directory" e))
    on_error (call (Call.untar temp) (λ calls. env.untar calls temp))
        (λ e. fail (wrap "failed to untar artifact content" e))
    answer ←
        attempt
          (call (Call.stat (path_in temp product)) (λ calls. env.stat calls (path_in temp product)))
    checked (path_in temp product) temp answer

  -- fetchFile; the error of Close is assigned to a variable that is not returned.
  unfoldable pub fetch_file : String → String → Run (String × String)
  unfolding unpack
  fetch_file url product = do
    on_error (lift (env.new_request url)) (λ e. fail (wrap "failed to construct request" e))
    on_error (call (Call.download url) (λ calls. env.download calls url))
        (λ e. fail (wrap "failed to download artifact from git repository" e))
    deferring (unpack product) (tell Call.close_body)

  unfoldable pub read_values : String × String → Run String
  read_values (path, dir) =
      deferring
        (on_error (call (Call.read_file path) (λ calls. env.read_file calls path))
          (λ e. fail (wrap "failed to read values file" e)))
        (call (Call.remove_all dir) (λ calls. env.remove_all calls dir))

  -- FetchValuesFileContent
  unfoldable pub fetch_values_file_content : String → String → Run String
  unfolding fetch_file read_values
  fetch_values_file_content product url = do found ← fetch_file url product; read_values found
