-- ===== src/Generating/Gate.antt =====
-- The method shouldRun.
use mpas_product_controller.Base.{String, Bool, true, false, not, ◌||◌, ◌==◌, if◌then◌else◌}
use mpas_product_controller.Kube.Action.{◌>>=◌, ◌>>◌, pure, lift, on_error, read}
use mpas_product_controller.Api.Reasons.{component_subscription_not_ready, semver_parse_failed}
use mpas_product_controller.Generating.Env.{Env, Run, Subscription, on_conditions, failed}

module _ (env : Env) where
  open env.conditions use {is_ready, mark_ready, mark_not_ready}

  -- From the two versions to the end.
  unfoldable pub is_newer : String → String → Run Bool
  unfolding failed
  is_newer reconciled applied = do
    generator ←
        on_error (lift (env.parse_version reconciled))
          (failed env semver_parse_failed "failed to parse last reconciled version")
    subscription ←
        on_error (lift (env.parse_version applied))
          (failed env semver_parse_failed "failed to parse last reconciled version")
    if env.version_equal subscription generator || env.version_less subscription generator
        then (do on_conditions (mark_ready "Reconciliation success"); pure false)
        else pure true

  unfoldable pub should_run : Subscription → Run Bool
  unfolding is_newer
  should_run subscription = do
    obj ← read
    if not (is_ready subscription.conditions)
        then (do
          on_conditions (
              mark_not_ready component_subscription_not_ready
                "component subscription not ready yet")
          pure false)
        else if obj.status.last_reconciled_version == ""
        then pure true
        else is_newer obj.status.last_reconciled_version subscription.last_applied_version
