-- ===== src/Generating/Made.antt =====
-- What createSync that ends with a sync has made.
use mpas_product_controller.Base.{
  ◌≡◌, ◌≢◌, refl, sym, subst, ◌∙◌, inl, inr, String, Option, none, some, [], ◌∷◌, arith, Contains,
}
use mpas_product_controller.Kube.Action.{
  Outcome, Session, Action, Outcome-cases, ◌>>=◌, done, fails, panics, pure, on_error, attempt,
}
use mpas_product_controller.Kube.Action.Succeeds.{steps, on_error_steps}
use mpas_product_controller.Kube.Store.{
  create_or_update, create_or_update-Stored, Maintains-create_or_update,
}
use mpas_product_controller.Kube.Objects.{ObjectLaws}
use mpas_product_controller.Api.{
  ProductDeployment, ProductDeploymentGenerator, ProductDescription, Component,
}
use mpas_product_controller.Api.Reasons.{create_snapshot_failed}
use mpas_product_controller.Project.{Project, CommitTemplate}
use mpas_product_controller.Generating.Env.{Call, Env, File, Subscription, SyncRequest, failed}
use mpas_product_controller.Generating.Syncs.{
  own_sync, sync_request, create_sync, after_deployment, request_sync,
}
use mpas_product_controller.Generating.Snapshots.{create_snapshot}
use mpas_product_controller.Generating.Written.{IsSynced, Stored-IsSynced}
use mpas_product_controller.Generating.Encoded.{
  IsEncoded, create_snapshot-IsEncoded, create_product_deployment_format,
}
use mpas_product_controller.Generating.Stopped.{
  State, failed_never, after_deployment_panics, after_deployment_fails,
}

module _ (env : Env) where
  request_sync_never :
      (obj : ProductDeploymentGenerator) (description : ProductDescription) (component : Component)
      (project : Project) (repository snapshot : String)
      (s : Session Call ProductDeploymentGenerator) (sync : SyncRequest)
      → (request_sync env obj description component project repository snapshot none s).0
        ≢ done sync
  unfolding request_sync ◌>>=◌
  request_sync_never obj description component project repository snapshot s sync h =
      absurd (ground arith)

  pure_value : {A : Type 0} (a b : A) (s : State) → (pure (some a) s).0 ≡ done (some b) → a ≡ b
  unfolding ◌>>=◌
  pure_value a b s h = ground arith

  pure_state : {A : Type 0} (P : State → Type 0) (a : A) (s : State) → P s → P (pure a s).1
  unfolding ◌>>=◌
  pure_state P a s p = p

  attempted :
      {A : Type 0} (m : Action State A) (made : Outcome A) (s : State)
      → (attempt m s).0 ≡ done made
      → (m s).0 ≡ made
  unfolding ◌>>=◌
  attempted m made s h = elim (Outcome-cases (m s).0) [
    | inl (a, e) ↦ ground arith
    | inr (inl (a, e)) ↦ ground arith
    | inr (inr e) ↦ absurd (ground arith)
  ]

  module _ (syncs : ObjectLaws env.syncs (λ x. x.meta)) where
    -- The deployment was encoded, and the snapshot of it, which the status names, is what the sync
    -- asks for, unless the cluster had the sync already.
    abbrev pub IsMade :
        ProductDeploymentGenerator
        → Project
        → String
        → ProductDeployment
        → SyncRequest
        → State
        → Type 0
    IsMade obj project repository deployment sync s =
        Contains (Call.encode deployment) s.calls
        × IsSynced env obj project repository s.obj.status.snapshot_name sync s.calls

    request_sync-IsMade :
        (obj : ProductDeploymentGenerator) (description : ProductDescription)
        (component : Component) (project : Project) (repository snapshot : String)
        (template : Option CommitTemplate) (deployment : ProductDeployment) (s : State)
        (sync : SyncRequest)
        → project.commit_template ≡ template
        → IsEncoded deployment snapshot s
        → (request_sync env obj description component project repository snapshot template s).0
          ≡ done sync
        → IsMade obj project repository deployment sync
            (request_sync env obj description component project repository snapshot template s).1
    unfolding request_sync
    request_sync-IsMade obj description component project repository snapshot none deployment s sync
          t encoded h =
        absurd (request_sync_never obj description component project repository snapshot s sync h)
    request_sync-IsMade obj description component project repository snapshot (some template)
          deployment s sync t (named, encoded) h =
        let desired =
          sync_request env obj description component project repository snapshot template in
        let (e, same) = on_error_steps _ _ s sync (λ e t. failed_never env _ _ e t sync) h in
        let run = create_or_update env.syncs Call.write_sync (own_sync env obj) desired s in
        let kept =
          (Maintains-create_or_update
              {P = λ (x : State).
                (x.obj.status.snapshot_name ≡ snapshot) × Contains (Call.encode deployment) x.calls}
              env.syncs Call.write_sync (own_sync env obj) desired (λ w x p. (p.0, inr p.1))).kept
            s (named, encoded) in
        let stored =
          Stored-IsSynced env obj description component project repository snapshot template s.calls
            run.1.calls sync syncs t
            (create_or_update-Stored env.syncs Call.write_sync (own_sync env obj) desired s sync
              e) in
        subst (λ r. IsMade obj project repository deployment sync r.1) (sym same)
          (
            kept.1,
            subst (λ n. IsSynced env obj project repository n sync run.1.calls) (sym kept.0) stored,
          )

    -- The deployment that the pair's file is the schema of.
    abbrev pub Makes :
        ProductDeploymentGenerator → Project → String → SyncRequest × File → State → Type 0
    Makes obj project repository pair s =
        (deployment : ProductDeployment) × (env.format pair.1 ≡ done deployment.spec.schema)
        × IsMade obj project repository deployment pair.0 s

    paired :
        (obj : ProductDeploymentGenerator) (project : Project) (repository : String)
        (deployment : ProductDeployment) (sync : SyncRequest) (schema : File)
        (pair : SyncRequest × File) (s : State)
        → (sync, schema) ≡ pair
        → env.format schema ≡ done deployment.spec.schema
        → IsMade obj project repository deployment sync s
        → Makes obj project repository pair s
    paired obj project repository deployment sync schema pair s e format made =
        subst (λ p. Makes obj project repository p s) e (deployment, format, made)

    after_deployment-Makes :
        (obj : ProductDeploymentGenerator) (description : ProductDescription)
        (component : Component) (dir : String) (project : Project) (repository : String)
        (made : Outcome (ProductDeployment × File)) (s : State) (pair : SyncRequest × File)
        → ((deployment : ProductDeployment) (schema : File)
            → made ≡ done (deployment, schema)
            → env.format schema ≡ done deployment.spec.schema)
        → (after_deployment env obj description component dir project repository made s).0
          ≡ done (some pair)
        → Makes obj project repository pair
            (after_deployment env obj description component dir project repository made s).1
    unfolding after_deployment
    after_deployment-Makes obj description component dir project repository panics s pair format h =
        absurd (after_deployment_panics env s (some pair) h)
    after_deployment-Makes obj description component dir project repository (fails e) s pair format
          h =
        absurd
          (after_deployment_fails env obj description component dir project repository e s pair h)
    after_deployment-Makes obj description component dir project repository
          (done (deployment, schema)) s pair format h =
        let G = λ (r : Outcome (Option (SyncRequest × File)) × State).
          Makes obj project repository pair r.1 in
        let created =
          on_error (create_snapshot env obj deployment component dir) (
            failed env create_snapshot_failed "failed to create snapshot for product deployment") in
        let t = (created s).1 in
        steps G _ _ s _ h (λ snapshot a h1. steps G _ _ _ _ h1 (λ sync b h2.
          let u =
            (request_sync env obj description component project repository snapshot
              project.commit_template t).1 in
          let (e, same) =
            on_error_steps _ _ s snapshot (λ e t. failed_never env _ _ e t snapshot) a in
          let encoded =
            subst (λ x. IsEncoded deployment snapshot x.1) (sym same)
              (create_snapshot-IsEncoded env obj deployment component dir snapshot s e) in
          pure_state (Makes obj project repository pair) (some (sync, schema)) u (
            paired obj project repository deployment sync schema pair u
              (pure_value (sync, schema) pair u h2) (format deployment schema refl)
              (request_sync-IsMade obj description component project repository snapshot
                project.commit_template deployment t sync refl encoded b))))

    pub create_sync-Makes :
        (obj : ProductDeploymentGenerator) (description : ProductDescription)
        (subscription : Subscription) (dir : String) (project : Project) (repository : String)
        (s : State) (pair : SyncRequest × File)
        → (create_sync env obj description subscription dir project repository s).0
          ≡ done (some pair)
        → Makes obj project repository pair
            (create_sync env obj description subscription dir project repository s).1
    unfolding create_sync
    create_sync-Makes obj description subscription dir project repository s pair h =
        let G = λ (r : Outcome (Option (SyncRequest × File)) × State).
          Makes obj project repository pair r.1 in
        steps G _ _ s _ h (λ _ a h1. steps G _ _ _ _ h1 (λ _ b h2. steps G _ _ _ _ h2 (λ made c h3.
          after_deployment-Makes obj description subscription.component dir project repository made
            _ pair
            (λ deployment schema e.
              create_product_deployment_format env obj description subscription
                (env.join (dir ∷ obj.meta.name ∷ [])) project _ deployment schema
                (attempted _ made _ c ∙ e))
            h3)))
