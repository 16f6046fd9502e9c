-- ===== src/Generating/Stopped.antt =====
-- What the generator does where a pipeline cannot be scheduled, and where its steps fail.
use mpas_product_controller.Base.{
  ◌≡◌, ◌≢◌, refl, inl, inr, String, true, Option, none, some, List, arith, Bool-cases,
}
use mpas_product_controller.Kube.Errors.{Error, is_unschedulable, error_text}
use mpas_product_controller.Kube.Action.{Outcome, Session, ◌>>=◌, done, fails, panics, pure, panic}
use mpas_product_controller.Kube.Action.Succeeds.{steps}
use mpas_product_controller.Kube.Conditions.{Condition}
use mpas_product_controller.Api.{
  ProductDeployment, ProductDeploymentGenerator, ProductDescription, Component,
}
use mpas_product_controller.Api.Reasons.{product_pipeline_scheduling_failed}
use mpas_product_controller.Project.{Project}
use mpas_product_controller.Generating.Env.{Call, Env, File, Subscription, SyncRequest, failed}
use mpas_product_controller.Generating.Syncs.{create_sync, after_deployment}
use mpas_product_controller.Generating.Reconcile.{finish}

abbrev pub State : Type 0
State = Session Call ProductDeploymentGenerator

module _ (env : Env) where
  -- A pipeline could not be scheduled, and the object says so.
  abbrev pub IsStopped : ProductDeploymentGenerator → Type 0
  IsStopped obj =
      (e : Error) × (before : List Condition) × (is_unschedulable e ≡ true)
      × (obj.status.conditions
          ≡ env.conditions.mark_not_ready product_pipeline_scheduling_failed (error_text e) before)

  pub failed_never :
      {A : Type 0} (reason context : String) (e : Error)
      (s : Session Call ProductDeploymentGenerator) (a : A)
      → (failed env reason context e s).0 ≢ done a
  unfolding failed ◌>>=◌
  failed_never reason context e s a h = absurd (ground arith)

  pure_never :
      {A : Type 0} (a : A) (s : Session Call ProductDeploymentGenerator)
      → (pure (some a) s).0 ≢ done none
  unfolding ◌>>=◌
  pure_never a s h = absurd (ground arith)

  pub after_deployment_panics :
      {A : Type 0} (s : Session Call ProductDeploymentGenerator) (a : A) → (panic s).0 ≢ done a
  unfolding ◌>>=◌
  after_deployment_panics s a h = absurd (ground arith)

  pub after_deployment_fails :
      (obj : ProductDeploymentGenerator) (description : ProductDescription) (component : Component)
      (dir : String) (project : Project) (repository : String) (e : Error)
      (s : Session Call ProductDeploymentGenerator) (pair : SyncRequest × File)
      → (after_deployment env obj description component dir project repository (fails e) s).0
        ≢ done (some pair)
  unfolding after_deployment failed ◌>>=◌
  after_deployment_fails obj description component dir project repository e s pair h =
      elim (Bool-cases (is_unschedulable e)) [
        | inl u ↦ absurd (ground arith)
        | inr u ↦ absurd (ground arith)
      ]

  unschedulable_stops :
      (obj : ProductDeploymentGenerator) (description : ProductDescription) (component : Component)
      (dir : String) (project : Project) (repository : String) (e : Error)
      (s : Session Call ProductDeploymentGenerator)
      → (after_deployment env obj description component dir project repository (fails e) s).0
        ≡ done none
      → IsStopped
          (after_deployment env obj description component dir project repository (fails e) s).1.obj
  unfolding after_deployment failed ◌>>=◌
  unschedulable_stops obj description component dir project repository e s h =
      elim (Bool-cases (is_unschedulable e)) [
        | inl u ↦ (e, s.obj.status.conditions, u, rw u refl)
        | inr u ↦ absurd (ground arith)
      ]

  after_deployment_stops :
      (obj : ProductDeploymentGenerator) (description : ProductDescription) (component : Component)
      (dir : String) (project : Project) (repository : String)
      (made : Outcome (ProductDeployment × File)) (s : Session Call ProductDeploymentGenerator)
      → (after_deployment env obj description component dir project repository made s).0 ≡ done none
      → IsStopped
          (after_deployment env obj description component dir project repository made s).1.obj
  unfolding after_deployment
  after_deployment_stops obj description component dir project repository panics s h =
      absurd (after_deployment_panics s none h)
  after_deployment_stops obj description component dir project repository (fails e) s h =
      unschedulable_stops obj description component dir project repository e s h
  after_deployment_stops obj description component dir project repository
        (done (deployment, schema)) s h =
      let G =
        λ (r : Outcome (Option (SyncRequest × File)) × Session Call ProductDeploymentGenerator).
          IsStopped r.1.obj in
      steps G _ _ s _ h
        (λ snapshot a h1. steps G _ _ _ _ h1 (λ sync b h2. absurd (pure_never _ _ h2)))

  pub create_sync_stops :
      (obj : ProductDeploymentGenerator) (description : ProductDescription)
      (subscription : Subscription) (dir : String) (project : Project) (repository : String)
      (s : Session Call ProductDeploymentGenerator)
      → (create_sync env obj description subscription dir project repository s).0 ≡ done none
      → IsStopped (create_sync env obj description subscription dir project repository s).1.obj
  unfolding create_sync
  create_sync_stops obj description subscription dir project repository s h =
      let G =
        λ (r : Outcome (Option (SyncRequest × File)) × Session Call ProductDeploymentGenerator).
          IsStopped r.1.obj in
      steps G _ _ s _ h (λ _ a h1. steps G _ _ _ _ h1 (λ _ b h2. steps G _ _ _ _ h2 (λ made c h3.
        after_deployment_stops obj description subscription.component dir project repository made _
          h3)))

  pub unchanged :
      (obj : ProductDeploymentGenerator) (component : Component)
      (s : Session Call ProductDeploymentGenerator)
      → IsStopped s.obj
      → IsStopped (finish env obj component none s).1.obj
  unfolding finish ◌>>=◌
  unchanged obj component s k = k
