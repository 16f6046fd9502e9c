-- ===== src/Generating/Snapshots.antt =====
-- The method createSnapshot.
use mpas_product_controller.Base.{String, List, [], ◌∷◌}
use mpas_product_controller.Kube.Errors.{wrap}
use mpas_product_controller.Kube.Action.{
  ◌>>=◌, ◌>>◌, pure, fail, on_error, deferring, read, modify, call, tell,
}
use mpas_product_controller.Api.{
  Component, ProductDeployment, ProductDeploymentGenerator, product_deployment_name_key,
}
use mpas_product_controller.Generating.Env.{Call, Env, Run, set_status}

abbrev pub kustomization_file : String
kustomization_file = "resources:\n- product-deployment.yaml\n"

module _ (env : Env) (obj : ProductDeploymentGenerator) where
  abbrev pub identity : Component → List (String × String)
  identity component =
      (env.component_name_key, component.name)
      ∷ (env.component_version_key, component.version)
      ∷ (product_deployment_name_key, obj.meta.name)
      ∷ []

  unfoldable pub write_snapshot : ProductDeployment → Component → String → Run String
  write_snapshot deployment component dir = do
    on_error
        (call
          (Call.write_file (env.join (dir ∷ obj.meta.name ∷ "kustomization.yaml" ∷ []))
            kustomization_file)
          (λ calls.
            env.write_file calls (env.join (dir ∷ obj.meta.name ∷ "kustomization.yaml" ∷ []))
              kustomization_file))
        (λ e. fail (wrap "failed to create kustomization file" e))
    on_error (call (Call.encode deployment) (λ calls. env.encode calls deployment))
        (λ e. fail (wrap "failed to encode product deployment" e))
    name ←
        on_error
          (call (Call.generate_name obj.meta.name) (λ calls. env.generate_name calls obj.meta.name))
          (λ e. fail (wrap "failed to generate a snapshot name" e))
    modify (set_status (λ s. record s { snapshot_name = name }))
    current ← read
    digest ←
        on_error
          (call (Call.write_snapshot current dir (identity component))
            (λ calls. env.write_snapshot calls current dir (identity component)))
          (λ e. fail (wrap "failed to write to the cache" e))
    modify (set_status (λ s. record s { latest_snapshot_digest = digest }))
    pure name

  abbrev deployment_file : String → String
  deployment_file dir = env.join (dir ∷ obj.meta.name ∷ "product-deployment.yaml" ∷ [])

  unfoldable pub create_snapshot : ProductDeployment → Component → String → Run String
  unfolding write_snapshot
  create_snapshot deployment component dir = do
    on_error
        (call (Call.create_file (deployment_file dir))
          (λ calls. env.create_file calls (deployment_file dir)))
        (λ e. fail (wrap "failed to create file" e))
    deferring (write_snapshot deployment component dir)
        (tell (Call.close_file (deployment_file dir)))
