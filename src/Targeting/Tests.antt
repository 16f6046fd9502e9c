-- ===== src/Targeting/Tests.antt =====
-- A target controller, tests and witnesses.
use mpas_product_controller.Base.{
  ◌≡◌, ◌≢◌, ◌⊎◌, refl, String, true, false, ◌*◌, List, [], ◌∷◌, some, none,
}
use mpas_product_controller.Kube.Errors.{after, second}
use mpas_product_controller.Kube.Action.{Session, ◌>>=◌, done}
use mpas_product_controller.Kube.Conditions.{
  condition, holds, ready_condition, reconciling_condition, succeeded_reason,
}
use mpas_product_controller.Kube.Sample.{empty_store, sample, sample_laws}
use mpas_product_controller.Kube.Store.{create_or_update}
use mpas_product_controller.Api.{Target, kubernetes}
use mpas_product_controller.Fixtures.{target, key, selector}
use mpas_product_controller.Targeting.Env.{Call, Env}
use mpas_product_controller.Targeting.Pulls.{same_from, same_pull_secrets, same_pull_secrets_lem}
use mpas_product_controller.Targeting.Access.{attach, secrets_of, reconcile_service_account}
use mpas_product_controller.Targeting.Status.{mark_retry, emit_if, emit_events, set_status}
use mpas_product_controller.Targeting.Reconcile.{
  access_of, access_failed, failed, announce, provision, prepare, close, reconcile_target,
  patch_target, process, reconcile,
}
use mpas_product_controller.Targeting.Ready.{reconcile_target_ready}

-- A target with an access and a service account, whose generation is new.
abbrev cluster : Target
cluster = record (target "cluster" kubernetes) {
  spec = record {
    type = kubernetes;
    access = some "{}";
    interval = 10 * second;
    service_account_name = "deployer";
    secrets_selector = some selector;
  };
}

abbrev env : Env
env = record {
  conditions = sample;
  is_not_found = λ e. false;
  get_target = λ calls k. done cluster;
  patch = λ calls t b. done tt;
  unmarshal = λ raw. done (record { secret_ref = none; target_namespace = "apps" });
  namespaces = empty_store;
  list_secrets = λ calls l n. done ("pull" ∷ []);
  service_accounts = empty_store;
  jitter = λ d. d;
}

abbrev start : Session Call Target
start = record { obj = cluster; calls = [] }

target_succeeds : (reconcile_target env start).0 ≡ done (after (10 * second))
unfolding reconcile_target close prepare provision announce access_of access_failed failed
    set_status mark_retry emit_if emit_events secrets_of attach same_pull_secrets same_from
    reconcile_service_account create_or_update ◌>>=◌
target_succeeds = refl

run_succeeds : (reconcile env key start).0 ≡ done (after (10 * second))
unfolding reconcile process patch_target reconcile_target close prepare provision announce access_of
    access_failed failed set_status mark_retry emit_if emit_events secrets_of attach
    same_pull_secrets same_from reconcile_service_account create_or_update ◌>>=◌
run_succeeds = refl

reconcile_target_ready_example :
    (after (10 * second) ≡ after (10 * second))
    × (sample.get ready_condition (reconcile_target env start).1.obj.status.conditions
        ≡ some (condition ready_condition holds succeeded_reason "Target is ready"))
    × (sample.get reconciling_condition (reconcile_target env start).1.obj.status.conditions ≡ none)
reconcile_target_ready_example =
    reconcile_target_ready env start (after (10 * second)) sample_laws target_succeeds

abbrev old_secrets : List String
old_secrets = "a" ∷ []

abbrev new_secrets : List String
new_secrets = "a" ∷ "b" ∷ []

same_pull_secrets_example :
    ((old_secrets ≡ new_secrets) × (same_pull_secrets old_secrets new_secrets ≡ done true))
    ⊎ ((old_secrets ≢ new_secrets) × (same_pull_secrets old_secrets new_secrets ≡ done false))
same_pull_secrets_example = same_pull_secrets_lem old_secrets new_secrets
