-- ===== src/Generating/Encoded.antt =====
-- What goes into the snapshot: the product deployment, with the text of its schema.
use mpas_product_controller.Base.{◌≡◌, refl, sym, subst, inl, inr, String, [], ◌∷◌, arith, Contains}
use mpas_product_controller.Kube.Errors.{wrap}
use mpas_product_controller.Kube.Action.{
  Action, Outcome, Session, Outcome-cases, ◌>>=◌, done, pure, fail, deferring, tell, lift, on_error,
}
use mpas_product_controller.Kube.Action.Succeeds.{steps}
use mpas_product_controller.Api.{
  Component, ProductDeployment, ProductDeploymentGenerator, ProductDeploymentGeneratorStatus,
  ProductDescription,
}
use mpas_product_controller.Project.{Project}
use mpas_product_controller.Generating.Env.{Call, Env, File, Subscription, set_status}
use mpas_product_controller.Generating.Product.{
  Files, write_files, product_deployment, create_product_deployment,
}
use mpas_product_controller.Generating.Snapshots.{
  kustomization_file, identity, write_snapshot, create_snapshot,
}

-- The status names the snapshot, and the deployment was encoded.
abbrev pub IsEncoded : ProductDeployment → String → Session Call ProductDeploymentGenerator → Type 0
IsEncoded deployment name s =
    (s.obj.status.snapshot_name ≡ name) × Contains (Call.encode deployment) s.calls

module _ (env : Env) (obj : ProductDeploymentGenerator) where
  write_snapshot-IsEncoded :
      (deployment : ProductDeployment) (component : Component) (dir name : String)
      (s : Session Call ProductDeploymentGenerator)
      → (write_snapshot env obj deployment component dir s).0 ≡ done name
      → IsEncoded deployment name (write_snapshot env obj deployment component dir s).1
  unfolding write_snapshot ◌>>=◌
  write_snapshot-IsEncoded deployment component dir name s h =
      let path = env.join (dir ∷ obj.meta.name ∷ "kustomization.yaml" ∷ []) in
      let s1 = Call.write_file path kustomization_file ∷ s.calls in
      let s2 = Call.encode deployment ∷ s1 in
      let s3 = Call.generate_name obj.meta.name ∷ s2 in
      elim (Outcome-cases (env.write_file s.calls path kustomization_file)) [
        | inl (u, e1) ↦ elim (Outcome-cases (env.encode s1 deployment)) [
          | inl (v, e2) ↦ elim (Outcome-cases (env.generate_name s2 obj.meta.name)) [
            | inl (n, e3) ↦
                let current =
                  set_status
                    (λ (x : ProductDeploymentGeneratorStatus). record x { snapshot_name = n })
                    s.obj in
                elim (Outcome-cases
                  (env.write_snapshot s3 current dir (identity env obj component))) [
                    | inl (w, e4) ↦ (ground arith, rw (e1, e2, e3, e4) (inr (inr (inl refl))))
                    | inr bad ↦ absurd (ground arith)
                  ]
            | inr bad ↦ absurd (ground arith)
          ]
          | inr bad ↦ absurd (ground arith)
        ]
        | inr bad ↦ absurd (ground arith)
      ]

  deferred :
      {A : Type 0} (m : Action (Session Call ProductDeploymentGenerator) A) (c : Call) (a : A)
      (s : Session Call ProductDeploymentGenerator)
      → (deferring m (tell c) s).0 ≡ done a
      → ((m s).0 ≡ done a)
        × ((deferring m (tell c) s).1 ≡ record (m s).1 { calls = c ∷ (m s).1.calls })
  unfolding ◌>>=◌
  deferred m c a s h = elim (Outcome-cases (m s).0) [
    | inl (b, e) ↦ (ground arith, refl)
    | inr bad ↦ absurd (ground arith)
  ]

  pub create_snapshot-IsEncoded :
      (deployment : ProductDeployment) (component : Component) (dir name : String)
      (s : Session Call ProductDeploymentGenerator)
      → (create_snapshot env obj deployment component dir s).0 ≡ done name
      → IsEncoded deployment name (create_snapshot env obj deployment component dir s).1
  unfolding create_snapshot
  create_snapshot-IsEncoded deployment component dir name s h =
      steps (λ r. IsEncoded deployment name r.1) _ _ s name h
        (λ u a h1.
          let (e, same) = deferred (write_snapshot env obj deployment component dir) _ name _ h1 in
          let (x, y) = write_snapshot-IsEncoded deployment component dir name _ e in
          subst (IsEncoded deployment name) (sym same) (x, inr y))

  -- The text that ends a list of steps is the formatted one.
  formatted :
      (file : File) (context : String) (s : Session Call ProductDeploymentGenerator) (text : String)
      → (on_error (lift (env.format file)) (λ e. fail (wrap context e)) s).0 ≡ done text
      → env.format file ≡ done text
  unfolding ◌>>=◌
  formatted file context s text h = elim (Outcome-cases (env.format file)) [
    | inl (a, e) ↦ ground arith
    | inr bad ↦ absurd (ground arith)
  ]

  write_files_format :
      (dir readme : String) (files : Files) (s : Session Call ProductDeploymentGenerator)
      (text : String)
      → (write_files env dir readme files s).0 ≡ done text
      → env.format files.schema ≡ done text
  unfolding write_files
  write_files_format dir readme files s text h =
      let G = λ (r : Outcome String × Session Call ProductDeploymentGenerator).
        env.format files.schema ≡ done text in
      steps G _ _ s _ h (λ _ a h1. steps G _ _ _ _ h1 (λ _ b h2.
        steps G _ _ _ _ h2
          (λ _ c h3. steps G _ _ _ _ h3 (λ _ d h4. formatted files.schema _ _ text h4))))

  made_format :
      (made deployment : ProductDeployment) (file schema : File) (text : String)
      (s : Session Call ProductDeploymentGenerator)
      → env.format file ≡ done text
      → (pure {A = ProductDeployment × File}
          (record made { spec = record made.spec { schema = text } }, file)
          s).0
        ≡ done (deployment, schema)
      → env.format schema ≡ done deployment.spec.schema
  unfolding ◌>>=◌
  made_format made deployment file schema text s f h = ground arith

  -- The schema that the deployment carries is the text of the file that is returned with it.
  pub create_product_deployment_format :
      (description : ProductDescription) (subscription : Subscription) (dir : String)
      (project : Project) (s : Session Call ProductDeploymentGenerator)
      (deployment : ProductDeployment) (schema : File)
      → (create_product_deployment env obj description subscription dir project s).0
        ≡ done (deployment, schema)
      → env.format schema ≡ done deployment.spec.schema
  unfolding create_product_deployment
  create_product_deployment_format description subscription dir project s deployment schema h =
      let G = λ (r : Outcome (ProductDeployment × File) × Session Call ProductDeploymentGenerator).
        env.format schema ≡ done deployment.spec.schema in
      steps G _ _ s _ h (λ collected a h1. steps G _ _ _ _ h1 (λ brought b h2.
        steps G _ _ _ _ h2 (λ existing c h3. steps G _ _ _ _ h3 (λ files d h4.
          steps G _ _ _ _ h4 (λ clean e h5. steps G _ _ _ _ h5 (λ text f h6.
            made_format
              (product_deployment env obj subscription.component subscription collected text)
              deployment clean.schema schema text _
              (write_files_format dir collected.readme clean _ text f) h6))))))
