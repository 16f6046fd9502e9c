-- ===== src/Generating/Product.antt =====
-- The method createProductDeployment.
use mpas_product_controller.Base.{
  String, Bool, true, false, List, [], ◌∷◌, Option, none, some, if◌then◌else◌,
}
use mpas_product_controller.Kube.Errors.{text, wrap}
use mpas_product_controller.Kube.Action.{◌>>=◌, ◌>>◌, pure, fail, lift, on_error, call}
use mpas_product_controller.Api.{
  Component, ProductDeployment, ProductDeploymentGenerator, ProductDescription,
}
use mpas_product_controller.Project.{Project}
use mpas_product_controller.Generating.Env.{Call, Env, Run, File, Subscription}
use mpas_product_controller.Generating.Pipelines.{Collected, create_pipelines}

-- The configuration and the schema, two pointers. Where they are `shared`, both point to one file.
pub record Files : Type 0 where
  pub shared : Bool
  pub config : File
  pub schema : File

-- A method that changes the file of the configuration in place.
abbrev pub set_config : File → Files → Files
set_config file files = record files {
  config = file;
  schema = if files.shared then file else files.schema;
}

module _ (env : Env) where
  unfoldable pub unified : List File → Run File
  unified [] = fail (text "failed to create product pipeline, a schema file is required")
  unified (file ∷ []) = pure file
  unified (file ∷ next ∷ files) =
      on_error (lift (env.unify file (next ∷ files))) (λ e. fail (wrap "failed to unify schemas" e))

  -- EvalWithoutPrivateFields changes the schema itself and returns it.
  unfoldable pub configure : Option File → File → Run Files
  configure none schema = do
    config ← lift (env.eval_without_private_fields schema)
    pure (record { shared = true; config = config; schema = config })
  configure (some existing) schema = do
    merged ←
        on_error (lift (env.merge existing schema))
          (λ e. fail (wrap "failed to merge existing values with schema" e))
    config ← on_error (lift (env.eval merged)) (λ e. fail (wrap "failed to evaluate config" e))
    pure (record { shared = false; config = config; schema = schema })

  unfoldable pub sanitized : Files → Run Files
  sanitized files = do
    file ←
        on_error (lift (env.sanitize files.config)) (λ e. fail (wrap "failed to sanitize values" e))
    pure (set_config file files)

  abbrev write : String → String → String → Run (Unit {0})
  write path content context =
      on_error (call (Call.write_file path content) (λ calls. env.write_file calls path content))
        (λ e. fail (wrap context e))

  -- From the sanitized files to the texts on disk; the text of the schema is returned.
  unfoldable pub write_files : String → String → Files → Run String
  write_files dir readme files = do
    on_error (lift (env.validate files.config files.schema))
        (λ e. fail (wrap "failed to validate configuration values file" e))
    config ←
        on_error (lift (env.format files.config)) (λ e. fail (wrap "failed to format values" e))
    write (env.join (dir ∷ "config.cue" ∷ [])) config "failed to write configuration values file"
    write (env.join (dir ∷ "README.md" ∷ [])) readme "failed to write readme file"
    on_error (lift (env.format files.schema)) (λ e. fail (wrap "failed to format values" e))

  abbrev pub product_deployment :
      ProductDeploymentGenerator → Component → Subscription → Collected → String → ProductDeployment
  product_deployment obj component subscription collected schema = record {
    meta = record {
      name = obj.meta.name;
      namespace = obj.meta.namespace;
      labels = [];
      annotations = [];
      owners = [];
      generation = 0;
      created = false;
      deleting = false;
    };
    spec = record {
      component = component;
      pipelines = collected.pipelines;
      service_account_name = obj.spec.service_account_name;
      interval = obj.spec.interval;
      schema = schema;
      verify = subscription.signature;
    };
    status = record { observed_generation = 0; conditions = []; active_pipelines = [] };
  }

  -- The deployment, and the file of the schema.
  unfoldable pub create_product_deployment :
      ProductDeploymentGenerator
      → ProductDescription
      → Subscription
      → String
      → Project
      → Run (ProductDeployment × File)
  unfolding unified configure sanitized write_files
  create_product_deployment obj description subscription dir project = do
    collected ← create_pipelines env description description.pipelines
    schema ← unified collected.schema_files
    existing ←
        on_error
          (call (Call.fetch_config obj.meta.name)
            (λ calls. env.fetch_config calls obj.meta.name project))
          (λ e. fail (wrap "failed to fetch existing config file" e))
    files ← configure existing schema
    clean ← sanitized files
    schema_text ← write_files dir collected.readme clean
    pure (
      product_deployment obj subscription.component subscription collected schema_text,
      clean.schema,
    )
