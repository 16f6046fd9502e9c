-- ===== src/Generating/Applied.antt =====
-- What a reconciliation of a generator that ends with no error has left behind.
use mpas_product_controller.Base.{◌≡◌, subst, inr, String, List, Contains, ◌<>◌}
use mpas_product_controller.Kube.Action.{done}
use mpas_product_controller.Kube.Conditions.{Condition}
use mpas_product_controller.Kube.Store.{
  create_or_update, create_or_update-Stored, Maintains-create_or_update,
}
use mpas_product_controller.Kube.Objects.{ObjectLaws}
use mpas_product_controller.Api.{
  ProductDeployment, ProductDeploymentGenerator, Component, Validation,
}
use mpas_product_controller.Project.{Project}
use mpas_product_controller.Generating.Env.{Call, Env, SyncRequest}
use mpas_product_controller.Generating.Reconcile.{own_validation, validation}
use mpas_product_controller.Generating.Written.{
  IsSynced, IsSynced-cons, IsValidated, Stored-IsValidated,
}
use mpas_product_controller.Generating.Stopped.{State}
use mpas_product_controller.Generating.Made.{IsMade}

module _ (env : Env) where
  -- The version is recorded, the object is ready, the deployment was encoded, and there are the sync
  -- of its snapshot and the validation of that sync by the deployment's schema.
  pub record IsApplied (obj : ProductDeploymentGenerator) (project : Project) (repository : String)
      (component : Component) (s : State) : Type 0 where
    pub deployment : ProductDeployment
    pub sync : SyncRequest
    pub validation : Validation
    pub before : List Condition
    pub version : s.obj.status.last_reconciled_version ≡ component.version
    pub is_ready :
        s.obj.status.conditions
        ≡ env.conditions.mark_ready ("Applied version: " <> component.version) before
    pub encoded : Contains (Call.encode deployment) s.calls
    pub synced : IsSynced env obj project repository s.obj.status.snapshot_name sync s.calls
    pub validated : IsValidated env obj sync deployment.spec.schema validation s.calls

  module _ (syncs : ObjectLaws env.syncs (λ x. x.meta))
      (validations : ObjectLaws env.validations (λ x. x.meta)) where
    validated :
        (obj : ProductDeploymentGenerator) (project : Project) (repository : String)
        (component : Component) (sync : SyncRequest) (schema : String)
        (deployment : ProductDeployment) (v : Validation) (s : State)
        → schema ≡ deployment.spec.schema
        → IsMade env syncs obj project repository deployment sync s
        → (create_or_update env.validations Call.write_validation
            (own_validation env obj)
            (validation env obj component sync schema)
            s).0
          ≡ done v
        → IsMade env syncs obj project repository deployment sync
            (create_or_update env.validations Call.write_validation
              (own_validation env obj)
              (validation env obj component sync schema)
              s).1
          × IsValidated env obj sync deployment.spec.schema v
              (create_or_update env.validations Call.write_validation
                (own_validation env obj)
                (validation env obj component sync schema)
                s).1.calls
    validated obj project repository component sync schema deployment v s is_schema made e =
        let desired = validation env obj component sync schema in
        let run =
          create_or_update env.validations Call.write_validation (own_validation env obj) desired
            s in
        (
          (Maintains-create_or_update {P = IsMade env syncs obj project repository deployment sync}
                env.validations Call.write_validation (own_validation env obj) desired
                (λ w x p. (
                  inr p.0,
                  IsSynced-cons env obj project repository x.obj.status.snapshot_name sync
                      (Call.write_validation w) x.calls p.1,
                ))).kept
              s made,
          subst (λ t. IsValidated env obj sync t v run.1.calls) is_schema
              (Stored-IsValidated env obj component sync schema s.calls run.1.calls v validations (
                create_or_update-Stored env.validations Call.write_validation
                  (own_validation env obj) desired s v e)),
        )
