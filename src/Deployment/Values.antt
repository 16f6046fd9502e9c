-- ===== src/Deployment/Values.antt =====
-- Which values reach the config map of a deployment.
use mpas_product_controller.Base.{◌≡◌, inl, inr, String, Bool, some, none, List, arith}
use mpas_product_controller.Kube.Action.{Session, Outcome-cases, ◌>>=◌, done}
use mpas_product_controller.Api.{ProductDeployment}
use mpas_product_controller.Project.{Project}
use mpas_product_controller.Deployment.Env.{Call, Env}
use mpas_product_controller.Deployment.ConfigMaps.{
  generate_config_map, merged_values, values_config_map,
}

module _ (env : Env) (obj : ProductDeployment) (project : Project) where
  -- The text is the YAML of the configuration of the project, valid by the schema of the
  -- deployment and merged with it.
  pub record IsMerged (calls : List Call) (values : String) : Type 0 where
    pub config : String
    pub merged : String
    pub fetched : env.fetch_config calls obj.meta.name project ≡ done (some config)
    pub schema : env.new_file "schema" obj.spec.schema ≡ done tt
    pub valid : env.validate config obj.spec.schema ≡ done tt
    pub defaults : env.merge config obj.spec.schema ≡ done merged
    pub text : env.yaml merged ≡ done values

  merged_values-IsMerged :
      (s : Session Call ProductDeployment) (values : String)
      → (merged_values env obj project s).0 ≡ done values
      → IsMerged s.calls values
  unfolding merged_values ◌>>=◌
  merged_values-IsMerged s values h =
      elim (Outcome-cases (env.fetch_config s.calls obj.meta.name project)) [
        | inl (none, e) ↦ absurd (ground arith)
        | inl (some config, e) ↦ elim (Outcome-cases (env.merge config obj.spec.schema)) [
          | inl (merged, m) ↦ record {
            config = config;
            merged = merged;
            fetched = e;
            schema = ground arith;
            valid = ground arith;
            defaults = m;
            text = ground arith;
          }
          | inr bad ↦ absurd (ground arith)
        ]
        | inr bad ↦ absurd (ground arith)
      ]

  -- Where createOrUpdatedValuesConfigMap returns no error, there is a text that is the YAML of the
  -- project's configuration for the deployment, valid by the deployment's schema and merged with it,
  -- and generateConfigMap has returned the same name and flag for that text.
  pub values_config_map-IsMerged :
      (s : Session Call ProductDeployment) (answer : String × Bool)
      → (values_config_map env obj project s).0 ≡ done answer
      → (values : String) × IsMerged s.calls values
        × ((generate_config_map env obj values (merged_values env obj project s).1).0 ≡ done answer)
  unfolding values_config_map ◌>>=◌
  values_config_map-IsMerged s answer h = elim (Outcome-cases (merged_values env obj project s).0) [
    | inl (values, e) ↦ (values, merged_values-IsMerged s values e, ground arith)
    | inr bad ↦ absurd (ground arith)
  ]
