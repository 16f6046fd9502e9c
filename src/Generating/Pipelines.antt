-- ===== src/Generating/Pipelines.antt =====
-- The method createProductPipeline, and the loop over the pipelines of the description.
use mpas_product_controller.Base.{
  String, List, [], ◌∷◌, Option, none, some, ◌==◌, ◌<>◌, if◌then◌else◌,
}
use mpas_product_controller.Kube.Errors.{wrap, unschedulable}
use mpas_product_controller.Kube.Action.{◌>>=◌, pure, fail, lift, on_error, call}
use mpas_product_controller.Api.{
  Pipeline, TargetRole, NamedRole, DescriptionPipeline, ProductDescription,
}
use mpas_product_controller.Generating.Headers.{transform}
use mpas_product_controller.Generating.Env.{Call, Env, Run, File}

-- The first role of the name.
abbrev pub role_named : String → List NamedRole → Option TargetRole
role_named name [] = none
role_named name (role ∷ roles) =
    let more = role_named name roles in if role.name == name then some role.target_role else more

abbrev pub pipeline_of : DescriptionPipeline → TargetRole → Pipeline
pipeline_of p role = record {
  name = p.name;
  resource = p.source;
  localization = p.localization;
  configuration = record { rules = p.rules };
  target_role = role;
}

-- What the loop collects: the pipelines, the readme and the schema files.
pub record Collected : Type 0 where
  pub pipelines : List Pipeline
  pub readme : String
  pub schema_files : List File

module _ (env : Env) where
  unfoldable pub schema_file : DescriptionPipeline → Run (Option File)
  schema_file p = if p.schema.name == "" then pure none else do
    content ←
        on_error (call (Call.get_resource p.schema) (λ calls. env.resource_data calls p.schema))
          (λ e. fail (wrap ("failed to get schema data for " <> p.schema.name) e))
    file ←
        on_error (lift (env.new_file p.name content))
          (λ e. fail (wrap ("failed to create cue schema for " <> p.schema.name) e))
    pure (some file)

  abbrev with_role : DescriptionPipeline → Option TargetRole → Run (Pipeline × Option File)
  with_role p none =
      fail (wrap ("failed to find a target role with name " <> p.target_role_name) unschedulable)
  with_role p (some role) = do file ← schema_file p; pure (pipeline_of p role, file)

  unfoldable pub create_product_pipeline :
      ProductDescription → DescriptionPipeline → Run (Pipeline × Option File)
  unfolding schema_file
  create_product_pipeline description p =
      if p.target_role_name == ""
      then fail (wrap ("pipeline '" <> p.name <> "' cannot be scheduled") unschedulable)
      else with_role p (role_named p.target_role_name description.target_roles)

  -- increaseHeaders
  abbrev pub increase_headers : String → Run String
  increase_headers instructions =
      on_error (lift (env.render_markdown (transform (env.parse_markdown instructions))))
        (λ e. fail (wrap "failed to convert instructions" e))

  -- The rest of the loop's body, and the following pipelines.
  abbrev pub collect : Pipeline → String → Option File → Run Collected → Run Collected
  collect pipe name none following = do
    rest ← following
    pure (record rest { pipelines = pipe ∷ rest.pipelines })
  collect pipe name (some file) following = do
    parsed ←
        on_error (increase_headers (env.comments file))
          (λ e. fail (wrap "failed to parse instructions" e))
    rest ← following
    pure (record {
      pipelines = pipe ∷ rest.pipelines;
      readme = "\n# Configuration instructions for " <> name <> "\n\n" <> parsed <> rest.readme;
      schema_files = file ∷ rest.schema_files;
    })

  unfoldable pub create_pipelines : ProductDescription → List DescriptionPipeline → Run Collected
  create_pipelines description [] = pure (record { pipelines = []; readme = ""; schema_files = [] })
  create_pipelines description (p ∷ ps) =
      let following = create_pipelines description ps in
      (on_error (create_product_pipeline description p)
          (λ e. fail (wrap "failed to create product pipeline" e))
        >>= λ made. collect made.0 p.name made.1 following)
