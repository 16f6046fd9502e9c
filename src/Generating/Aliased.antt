-- ===== src/Generating/Aliased.antt =====
-- What the two pointers to one file do to a new product deployment.
use mpas_product_controller.Base.{
  ◌≡◌, sym, subst, ap, ◌∙◌, inl, inr, String, true, Option, none, some, List, [], ◌∷◌, arith,
  Contains,
}
use mpas_product_controller.Kube.Errors.{wrap}
use mpas_product_controller.Kube.Action.{
  Outcome, Session, Outcome-cases, ◌>>=◌, done, fails, panics, pure, fail, on_error, call,
}
use mpas_product_controller.Kube.Action.Succeeds.{steps, pure_keeps}
use mpas_product_controller.Api.{ProductDeployment, ProductDeploymentGenerator, ProductDescription}
use mpas_product_controller.Project.{Project}
use mpas_product_controller.Generating.Env.{Call, Env, File, Subscription}
use mpas_product_controller.Generating.Pipelines.{Collected, create_pipelines}
use mpas_product_controller.Generating.Product.{
  Files, unified, configure, sanitized, write_files, product_deployment, create_product_deployment,
}

module _ (env : Env) where
  -- The two pointers point to one file.
  abbrev IsShared : Files → Type 0
  IsShared files = (files.shared ≡ true) × (files.config ≡ files.schema)

  configure-IsShared :
      (existing : Option File) (schema : File) (s : Session Call ProductDeploymentGenerator)
      (files : Files)
      → existing ≡ none
      → (configure env existing schema s).0 ≡ done files
      → IsShared files × (env.eval_without_private_fields schema ≡ done files.config)
  unfolding configure ◌>>=◌
  configure-IsShared (some existing) schema s files a h = absurd (ground arith)
  configure-IsShared none schema s files a h =
      elim (Outcome-cases (env.eval_without_private_fields schema)) [
        | inl (config, e) ↦ ((ground arith, ground arith), ground arith)
        | inr bad ↦ absurd (ground arith)
      ]

  sanitized-IsShared :
      (files clean : Files) (s : Session Call ProductDeploymentGenerator)
      → IsShared files
      → (sanitized env files s).0 ≡ done clean
      → IsShared clean × (env.sanitize files.config ≡ done clean.config)
  unfolding sanitized ◌>>=◌
  sanitized-IsShared files clean s (a, b) h = elim (Outcome-cases (env.sanitize files.config)) [
    | inl (file, e) ↦ ((ground arith, ground arith), ground arith)
    | inr bad ↦ absurd (ground arith)
  ]

  -- The two texts on disk, the readme last, where the text of the schema is `text`.
  abbrev written : String → String → String → List Call → List Call
  written dir readme text before =
      Call.write_file (env.join (dir ∷ "README.md" ∷ [])) readme
      ∷ Call.write_file (env.join (dir ∷ "config.cue" ∷ [])) text
      ∷ before

  written_text :
      (dir readme text schema : String) (before calls : List Call)
      → calls ≡ written dir readme text before
      → text ≡ schema
      → Contains (Call.write_file (env.join (dir ∷ "config.cue" ∷ [])) schema) calls
  written_text dir readme text schema before calls e same =
      subst (Contains (Call.write_file (env.join (dir ∷ "config.cue" ∷ [])) schema)) (sym e)
        (inr (inl (ap (Call.write_file (env.join (dir ∷ "config.cue" ∷ []))) same)))

  write_files-same :
      (dir readme : String) (files : Files) (s : Session Call ProductDeploymentGenerator)
      (text : String)
      → IsShared files
      → (write_files env dir readme files s).0 ≡ done text
      → ((write_files env dir readme files s).1.calls ≡ written dir readme text s.calls)
        × (env.format files.config ≡ done text)
  unfolding write_files ◌>>=◌
  write_files-same dir readme files s text (a, b) h =
      elim (Outcome-cases (env.format files.config)) [
        | inl (config, e) ↦ let f = ap env.format (sym b) ∙ e in (ground arith, ground arith)
        | inr bad ↦ absurd (ground arith)
      ]

  no_config :
      (obj : ProductDeploymentGenerator) (project : Project)
      (s : Session Call ProductDeploymentGenerator) (existing : Option File)
      → ((calls : List Call) → env.fetch_config calls obj.meta.name project ≡ done none)
      → (on_error
          (call
            (Call.fetch_config obj.meta.name)
            (λ calls. env.fetch_config calls obj.meta.name project))
          (λ e. fail (wrap "failed to fetch existing config file" e))
          s).0
        ≡ done existing
      → existing ≡ none
  unfolding ◌>>=◌
  no_config obj project s existing none_yet h = let n = none_yet s.calls in ground arith

  schema_of : Outcome (ProductDeployment × File) → String
  schema_of (done (deployment, file)) = deployment.spec.schema
  schema_of (fails e) = ""
  schema_of panics = ""

  schema_text :
      (deployment : ProductDeployment) (schema : File) (made : ProductDeployment) (file : File)
      (text : String) (s : Session Call ProductDeploymentGenerator)
      → (pure {A = ProductDeployment × File}
          (record made { spec = record made.spec { schema = text } }, file)
          s).0
        ≡ done (deployment, schema)
      → text ≡ deployment.spec.schema
  unfolding ◌>>=◌ schema_of
  schema_text deployment schema made file text s h = ap schema_of h

  -- The text is what EvalWithoutPrivateFields, and then Sanitize, have made of the unified schema of
  -- the pipelines.
  abbrev pub IsEvaluated :
      ProductDescription → Session Call ProductDeploymentGenerator → String → Type 0
  IsEvaluated description s text =
      (collected : Collected) × (brought evaluated clean : File) × ((create_pipelines env
          description description.pipelines s).0
        ≡ done collected)
      × ((unified env collected.schema_files
            (create_pipelines env description description.pipelines s).1).0
          ≡ done brought)
      × (env.eval_without_private_fields brought ≡ done evaluated)
      × (env.sanitize evaluated ≡ done clean)
      × (env.format clean ≡ done text)

  -- Where there is no configuration yet, and the product deployment is created, the schema that it
  -- carries is the text that was written to config.cue: the formatted text of what
  -- EvalWithoutPrivateFields, and then Sanitize, have made of the schema that the pipelines brought.
  pub create_product_deployment_shared :
      (obj : ProductDeploymentGenerator) (description : ProductDescription)
      (subscription : Subscription) (dir : String) (project : Project)
      (s : Session Call ProductDeploymentGenerator) (deployment : ProductDeployment) (schema : File)
      → ((calls : List Call) → env.fetch_config calls obj.meta.name project ≡ done none)
      → (create_product_deployment env obj description subscription dir project s).0
        ≡ done (deployment, schema)
      → IsEvaluated description s deployment.spec.schema
        × Contains
            (Call.write_file (env.join (dir ∷ "config.cue" ∷ [])) deployment.spec.schema)
            (create_product_deployment env obj description subscription dir project s).1.calls
  unfolding create_product_deployment
  create_product_deployment_shared obj description subscription dir project s deployment schema
        none_yet h =
      let Written = λ (text : String) (t : Session Call ProductDeploymentGenerator).
        Contains (Call.write_file (env.join (dir ∷ "config.cue" ∷ [])) text) t.calls in
      let G = λ (r : Outcome (ProductDeployment × File) × Session Call ProductDeploymentGenerator).
        IsEvaluated description s deployment.spec.schema × Written deployment.spec.schema r.1 in
      steps G _ _ s _ h (λ collected a h1. steps G _ _ _ _ h1 (λ brought b h2.
        steps G _ _ _ _ h2 (λ existing c h3. steps G _ _ _ _ h3 (λ files d h4.
          steps G _ _ _ _ h4 (λ clean e h5. steps G _ _ _ _ h5 (λ text f h6.
            let (shared, evaluated) =
              configure-IsShared existing brought _ files
                (no_config obj project _ existing none_yet c) d in
            let (still, sanitary) = sanitized-IsShared files clean _ shared e in
            let (calls, formatted) = write_files-same dir collected.readme clean _ text still f in
            let made =
              product_deployment env obj subscription.component subscription collected text in
            let same = schema_text deployment schema made clean.schema text _ h6 in
            (
              subst (IsEvaluated description s) same (
                collected, brought, files.config, clean.config, a, b, evaluated, sanitary,
                formatted,
              ),
              pure_keeps (Written deployment.spec.schema) _ _
                  (written_text dir collected.readme text deployment.spec.schema _ _ calls same),
            )))))))
