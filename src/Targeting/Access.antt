-- ===== src/Targeting/Access.antt =====
-- The method reconcileServiceAccount.
use mpas_product_controller.Base.{
  String, Bool, false, List, [], Option, none, some, if◌then◌else◌, length, nat_eq,
}
use mpas_product_controller.Kube.Errors.{text, wrap}
use mpas_product_controller.Kube.Action.{
  Outcome, done, fails, panics, ◌>>=◌, ◌>>◌, pure, fail, on_error, call,
}
use mpas_product_controller.Kube.Store.{create_or_update}
use mpas_product_controller.Api.{ObjectMeta, LabelSelector, Target, KubernetesAccess}
use mpas_product_controller.Targeting.Env.{Call, Env, Run, ServiceAccount}
use mpas_product_controller.Targeting.Pulls.{same_pull_secrets}

-- A new object with a name and a namespace.
abbrev pub fresh : String → String → ObjectMeta
fresh name namespace = record {
  name = name;
  namespace = namespace;
  labels = [];
  annotations = [];
  owners = [];
  generation = 0;
  created = false;
  deleting = false;
}

abbrev attached : List String → ServiceAccount → Outcome Bool → Outcome ServiceAccount
attached secrets sa (done same) =
    if same then done sa else done (record sa { image_pull_secrets = secrets })
attached secrets sa (fails e) = fails e
attached secrets sa panics = panics

-- The callback.
unfoldable pub attach : List String → ServiceAccount → Outcome ServiceAccount
attach secrets sa = attached secrets sa (same_pull_secrets sa.image_pull_secrets secrets)

module _ (env : Env) where
  unfoldable pub secrets_of : String → Option LabelSelector → Run (List String)
  secrets_of namespace none = pure []
  secrets_of namespace (some selector) = do
    secrets ←
        on_error
          (call (Call.list_secrets selector.match_labels namespace)
            (λ calls. env.list_secrets calls selector.match_labels namespace))
          (λ e. fail (wrap "error retrieving secrets" e))
    if nat_eq (length secrets) 0 then fail (text "no secrets found") else pure secrets

  unfoldable pub reconcile_service_account : Target → ObjectMeta → KubernetesAccess → Run (Unit {0})
  unfolding secrets_of attach
  reconcile_service_account obj namespace access = do
    secrets ← secrets_of namespace.name obj.spec.secrets_selector
    on_error
        (create_or_update env.service_accounts Call.write_service_account (attach secrets) (record {
          meta = fresh obj.spec.service_account_name access.target_namespace;
          image_pull_secrets = [];
        }))
        (λ e. fail (wrap "failed to reconcile service account" e))
    pure tt
