-- ===== src/Pipeline/Localization.antt =====
-- The method createOrUpdateLocalization.
use mpas_product_controller.Base.{Option, none, some, ◌==◌, if◌then◌else◌}
use mpas_product_controller.Kube.Errors.{wrap}
use mpas_product_controller.Kube.Action.{Outcome, done, mapped, ◌>>=◌, pure, fail, on_error}
use mpas_product_controller.Kube.Store.{create_or_update}
use mpas_product_controller.Api.{ProductDeploymentPipeline}
use mpas_product_controller.Pipeline.Objects.{Mutation, MutationSpec, named, component_resource}
use mpas_product_controller.Pipeline.Env.{Call, Env, Run, default_pipeline_requeue}

abbrev pub localization_spec : ProductDeploymentPipeline → MutationSpec
localization_spec obj = record {
  interval = default_pipeline_requeue;
  source_ref = component_resource obj obj.spec.resource;
  config_ref = some (component_resource obj obj.spec.localization);
  values_from = none;
}

module _ (env : Env) where
  -- The callback: the owner is set on a new object, and nothing else is changed.
  unfoldable pub localize : ProductDeploymentPipeline → Mutation → Outcome Mutation
  localize obj m =
      if m.meta.created
      then done m
      else mapped (λ meta. record m { meta = meta })
          (wrap "failed to set owner to localization object") (env.set_owner obj.meta m.meta)

  -- `none` is the nil pointer, returned with no error.
  unfoldable pub create_or_update_localization : ProductDeploymentPipeline → Run (Option Mutation)
  create_or_update_localization obj = if obj.spec.localization.name == "" then pure none else do
    localization ←
        on_error
          (create_or_update env.localizations Call.write_localization (localize obj) (record {
            meta = named "-localization" obj;
            spec = localization_spec obj;
            snapshot_name = "";
          }))
          (λ e. fail (wrap "failed to create localization" e))
    pure (some localization)
