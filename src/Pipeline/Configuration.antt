-- ===== src/Pipeline/Configuration.antt =====
-- The method createOrUpdateConfiguration.
use mpas_product_controller.Base.{Option, none, some, ◌==◌, ◌!=◌, if◌then◌else◌}
use mpas_product_controller.Kube.Errors.{wrap}
use mpas_product_controller.Kube.Action.{
  and_then, Outcome, done, panics, mapped, ◌>>=◌, pure, fail, on_error,
}
use mpas_product_controller.Kube.Store.{create_or_update}
use mpas_product_controller.Api.{ResourceReference, ProductDeploymentPipeline}
use mpas_product_controller.Pipeline.Objects.{
  Mutation, MutationSpec, ObjectReference, ConfigMapSource, named, component_resource, zero_spec,
}
use mpas_product_controller.Pipeline.Env.{Call, Env, Run, default_pipeline_requeue}

-- The source is the localization, if there is one, else the component version's resource.
abbrev pub source : ProductDeploymentPipeline → Option Mutation → ObjectReference
source obj none = component_resource obj obj.spec.resource
source obj (some localization) = record {
  kind = "Localization";
  name = localization.meta.name;
  namespace = obj.meta.namespace;
  resource_ref = none;
}

abbrev pub config_map_source : ProductDeploymentPipeline → ConfigMapSource
config_map_source obj = record {
  source_ref = obj.spec.config_map_ref;
  key = "values.yaml";
  sub_path = obj.meta.name;
}

abbrev pub configuration_spec : ProductDeploymentPipeline → Option Mutation → MutationSpec
configuration_spec obj localization = record {
  interval = default_pipeline_requeue;
  source_ref = source obj localization;
  config_ref = some (component_resource obj obj.spec.configuration.rules);
  values_from = some (some (config_map_source obj));
}

-- `x == nil || x.Name != y.Name`, where `y` is dereferenced if `x` is not nil.
unfoldable pub renamed :
    Option ResourceReference
    → Option ResourceReference
    → MutationSpec
    → MutationSpec
    → Outcome MutationSpec
renamed none y spec old = done spec
renamed (some x) none spec old = panics
renamed (some x) (some y) spec old = if x.name != y.name then done spec else done old

abbrev resource_of : Option ObjectReference → Option ResourceReference
resource_of none = none
resource_of (some r) = r.resource_ref

-- The three tests on a spec, in order; each replaces it by the wanted spec.
unfoldable pub check_source : MutationSpec → MutationSpec → Outcome MutationSpec
unfolding renamed
check_source spec old = renamed old.source_ref.resource_ref spec.source_ref.resource_ref spec old

unfoldable pub check_config_of :
    Option ObjectReference → MutationSpec → MutationSpec → Outcome MutationSpec
unfolding renamed
check_config_of none spec old = panics
check_config_of (some r) spec old = renamed r.resource_ref (resource_of spec.config_ref) spec old

unfoldable pub check_config : MutationSpec → MutationSpec → Outcome MutationSpec
unfolding check_config_of
check_config spec old = check_config_of old.config_ref spec old

unfoldable pub check_values_of :
    Option (Option ConfigMapSource)
    → Option (Option ConfigMapSource)
    → MutationSpec
    → MutationSpec
    → Outcome MutationSpec
check_values_of none y spec old = panics
check_values_of (some none) y spec old = done spec
check_values_of (some (some x)) (some (some y)) spec old =
    if x.source_ref != y.source_ref then done spec else done old
check_values_of (some (some x)) (some none) spec old = panics
check_values_of (some (some x)) none spec old = panics

unfoldable pub check_values : MutationSpec → MutationSpec → Outcome MutationSpec
unfolding check_values_of
check_values spec old = check_values_of old.values_from spec.values_from spec old

unfoldable pub refresh : MutationSpec → MutationSpec → Outcome MutationSpec
unfolding check_source check_config check_values
refresh spec old =
    and_then (and_then (check_source spec old) (check_config spec)) (check_values spec)

module _ (env : Env) where
  abbrev owned : ProductDeploymentPipeline → Mutation → Outcome Mutation
  owned obj m =
      if m.meta.created
      then done m
      else mapped (λ meta. record m { meta = meta })
          (wrap "failed to set owner to configuration object") (env.set_owner obj.meta m.meta)

  -- The callback.
  unfoldable pub configure : ProductDeploymentPipeline → MutationSpec → Mutation → Outcome Mutation
  unfolding refresh
  configure obj spec m =
      and_then (owned obj m)
        (λ o. mapped (λ new. record o { spec = new }) (λ e. e) (refresh spec o.spec))

  -- `none` is the nil pointer, returned with no error.
  unfoldable pub create_or_update_configuration :
      ProductDeploymentPipeline → Option Mutation → Run (Option Mutation)
  create_or_update_configuration obj localization =
      if obj.spec.configuration.rules.name == "" then pure none else do
        configuration ←
            on_error
              (create_or_update env.configurations Call.write_configuration
                (configure obj (configuration_spec obj localization))
                (record {
                  meta = named "-configuration" obj;
                  spec = zero_spec;
                  snapshot_name = "";
                }))
              (λ e. fail (wrap "failed to create configuration" e))
        pure (some configuration)
