-- ===== src/Deployment/ConfigMaps.antt =====
-- The methods generateConfigMap and createOrUpdatedValuesConfigMap, and hashValues.
use Prim.Native.String.{slice}
use mpas_product_controller.Base.{
  String, Bool, true, false, List, [], ◌∷◌, Option, none, some, ◌==◌, ◌<>◌, if◌then◌else◌, any,
}
use mpas_product_controller.Kube.Errors.{text, Error, wrap, join}
use mpas_product_controller.Kube.Action.{
  Outcome, done, fails, panics, ◌>>=◌, ◌>>◌, pure, fail, lift, on_error, attempt, call,
}
use mpas_product_controller.Api.{ProductDeployment, product_deployment_owner_label_key}
use mpas_product_controller.Project.{Project}
use mpas_product_controller.Deployment.Env.{Call, Env, Run, ConfigMap}

module _ (env : Env) where
  -- hashValues: the first eight digits.
  abbrev pub hash_values : String → String
  hash_values values = slice (env.sha1_hex values) 0 8

  abbrev pub config_name : ProductDeployment → String → String
  config_name obj values = obj.meta.name <> "-values-" <> hash_values values

  abbrev pub config_map : ProductDeployment → String → ConfigMap
  config_map obj values = record {
    meta = record {
      name = config_name obj values;
      namespace = obj.meta.namespace;
      labels = (product_deployment_owner_label_key, obj.meta.name) ∷ [];
      annotations = [];
      owners = [];
      generation = 0;
      created = false;
      deleting = false;
    };
    values = values;
  }

  -- `errf = errors.Join(errf, err)` over the old config maps; `none` is nil.
  abbrev pub joined_with : Option Error → Outcome (Unit {0}) → Option Error
  joined_with errf (done u) = errf
  joined_with none (fails e) = some e
  joined_with (some f) (fails e) = some (join f e)
  joined_with errf panics = errf

  unfoldable pub delete_all : Option Error → List ConfigMap → Run (Option Error)
  delete_all errf [] = pure errf
  delete_all errf (cm ∷ cms) = do
    result ← attempt (call (Call.delete_config_map cm) (λ calls. env.delete_config_map calls cm))
    delete_all (joined_with errf result) cms

  abbrev pub updated_unless : String → Option Error → Run (String × Bool)
  updated_unless name none = pure (name, true)
  updated_unless name (some e) = fail e

  -- From the creation to the end.
  unfoldable pub create_config_map :
      ProductDeployment → String → List ConfigMap → Run (String × Bool)
  unfolding delete_all
  create_config_map obj values existing = do
    on_error
        (call (Call.create_config_map (config_map obj values))
          (λ calls. env.create_config_map calls (config_map obj values)))
        (λ e. fail (wrap "failed to create configmap" e))
    on_error (lift (env.set_owner obj.meta (config_map obj values).meta))
        (λ e. fail (wrap "failed to set owner to configmap object" e))
    errf ← delete_all none existing
    updated_unless (config_name obj values) errf

  -- The name of the config map, and whether it is new.
  unfoldable pub generate_config_map : ProductDeployment → String → Run (String × Bool)
  unfolding create_config_map
  generate_config_map obj values = do
    existing ←
        on_error
          (call
            (Call.list_config_maps
              (record { name = obj.meta.name; namespace = obj.meta.namespace }))
            (λ calls.
              env.list_config_maps calls
                (record { name = obj.meta.name; namespace = obj.meta.namespace })))
          (λ e. fail (wrap "failed to list owned configmaps" e))
    if any (λ cm. cm.meta.name == config_name obj values) existing
        then pure (config_name obj values, false)
        else create_config_map obj values existing

  abbrev found : Option String → Run String
  found none = fail (text "no config found")
  found (some config) = pure config

  -- createOrUpdatedValuesConfigMap, up to the text of the values.
  unfoldable pub merged_values : ProductDeployment → Project → Run String
  merged_values obj project = do
    fetched ←
        on_error
          (call (Call.fetch_config obj.meta.name)
            (λ calls. env.fetch_config calls obj.meta.name project))
          (λ e. fail (wrap "failed to retrieve config" e))
    config ← found fetched
    on_error (lift (env.new_file "schema" obj.spec.schema))
        (λ e. fail (wrap "failed to retrieve schema" e))
    on_error (lift (env.validate config obj.spec.schema))
        (λ e. fail (wrap "failed to validate config" e))
    values ←
        on_error (lift (env.merge config obj.spec.schema))
          (λ e. fail (wrap "failed to merge config with schema" e))
    on_error (lift (env.yaml values)) (λ e. fail (wrap "failed to convert config values to yaml" e))

  unfoldable pub values_config_map : ProductDeployment → Project → Run (String × Bool)
  unfolding merged_values generate_config_map
  values_config_map obj project = do
    values ← merged_values obj project
    on_error (generate_config_map obj values) (λ e. fail (wrap "failed to generate configmap" e))
