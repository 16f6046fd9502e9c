-- ===== src/Deployment/Pipelines.antt =====
-- The loop of `reconcile` that creates and updates the pipelines.
use mpas_product_controller.Base.{
  String, Bool, false, not, ◌&&◌, none, List, [], ◌∷◌, ◌++◌, ◌==◌, ◌<>◌, if◌then◌else◌, any,
}
use mpas_product_controller.Kube.Errors.{wrap}
use mpas_product_controller.Kube.Action.{
  Outcome, done, mapped, ◌>>=◌, ◌>>◌, pure, fail, on_error, modify,
}
use mpas_product_controller.Kube.Store.{create_or_update}
use mpas_product_controller.Api.{
  Pipeline, ProductDeployment, ProductDeploymentPipeline, ProductDeploymentPipelineSpec, equals,
  product_deployment_owner_label_key,
}
use mpas_product_controller.Deployment.Env.{Call, Env, Run, set_status}

-- The method generateComponentVersionName.
abbrev pub component_version_name : ProductDeployment → String
component_version_name obj = obj.meta.name <> "component-version"

abbrev pub pipeline_spec : ProductDeployment → String → Pipeline → ProductDeploymentPipelineSpec
pipeline_spec obj config_name p = record {
  component_version_ref = component_version_name obj;
  resource = p.resource;
  localization = p.localization;
  configuration = p.configuration;
  target_role = p.target_role;
  config_map_ref = config_name;
  target_ref = record { name = ""; namespace = "" };
}

-- The object that CreateOrUpdate starts from: only its metadata is set.
abbrev pub blank : ProductDeployment → Pipeline → ProductDeploymentPipeline
blank obj p = record {
  meta = record {
    name = p.name;
    namespace = obj.meta.namespace;
    labels = (product_deployment_owner_label_key, obj.meta.name) ∷ [];
    annotations = [];
    owners = [];
    generation = 0;
    created = false;
    deleting = false;
  };
  spec = record {
    component_version_ref = "";
    resource = record { name = ""; version = ""; reference_path = [] };
    localization = record { name = ""; version = ""; reference_path = [] };
    configuration = record { rules = record { name = ""; version = ""; reference_path = [] } };
    target_role = record {
      type = "";
      selector = record { match_labels = []; match_expressions = [] };
    };
    config_map_ref = "";
    target_ref = record { name = ""; namespace = "" };
  };
  status = record {
    observed_generation = 0;
    conditions = [];
    selected_target_ref = none;
    snapshot_ref = none;
  };
}

abbrev with_spec :
    ProductDeploymentPipelineSpec → ProductDeploymentPipeline → ProductDeploymentPipeline
with_spec spec p = if equals p.spec spec then p else record p { spec = spec }

module _ (env : Env) where
  -- The callback.
  unfoldable pub adopt :
      ProductDeployment
      → ProductDeploymentPipelineSpec
      → ProductDeploymentPipeline
      → Outcome ProductDeploymentPipeline
  adopt obj spec p =
      if p.meta.created
      then done (with_spec spec p)
      else mapped (λ m. with_spec spec (record p { meta = m }))
          (wrap "failed to set owner to pipeline object object")
          (env.set_controller obj.meta p.meta)

  -- A pipeline that exists is left out unless the config map is new.
  abbrev pub is_skipped : List String → Bool → Pipeline → Bool
  is_skipped known updated p = any (λ name. name == p.name) known && not updated

  unfoldable pub create_pipeline : ProductDeployment → String → Pipeline → Run (Unit {0})
  create_pipeline obj config_name p = do
    written ←
        on_error
          (create_or_update env.pipelines Call.write_pipeline
            (adopt obj (pipeline_spec obj config_name p)) (blank obj p))
          (λ e. fail (wrap "failed to create pipeline object" e))
    modify (
        set_status
          (λ s. record s { active_pipelines = s.active_pipelines ++ written.meta.name ∷ [] }))

  unfoldable pub create_pipelines :
      ProductDeployment → String → Bool → List String → List Pipeline → Run (Unit {0})
  create_pipelines obj config_name updated known [] = pure tt
  create_pipelines obj config_name updated known (p ∷ ps) =
      let rest = create_pipelines obj config_name updated known ps in
      if is_skipped known updated p then rest else create_pipeline obj config_name p >> rest
