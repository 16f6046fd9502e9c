-- ===== src/Lifecycle/Named.antt =====
-- A target is selected only for a pipeline with a snapshot.
use mpas_product_controller.Base.{
  ◌≡◌, ◌≢◌, refl, sym, subst, ◌⊎◌, inl, inr, String, true, ◌==◌, Option, some, none, List, [], ◌∷◌,
  eq_iff, arith, Bool-cases, nat_eq, length, get_elem?,
}
use mpas_product_controller.Kube.Errors.{Error, Key}
use mpas_product_controller.Kube.Action.{Session, ◌>>=◌, done}
use mpas_product_controller.Kube.Action.Maintains.{
  Maintains, Maintains-pure, Maintains-fail, Maintains-panic, Maintains-if, Maintains-on_error,
  Maintains-bind, Maintains-call, Maintains-modify, Maintains-deferring, Maintains-read,
  Maintains-tell, Maintains-fetch, Maintains-lift, Maintains-index,
}
use mpas_product_controller.Kube.Store.{Maintains-create_or_update}
use mpas_product_controller.Api.{
  ProductDeploymentPipeline, Target, TargetRole, LabelSelector, OwnerReference,
}
use mpas_product_controller.Scheduler.Env as SchedulerWorld
use mpas_product_controller.Kube.Conditions.{Condition, ready_condition}
use mpas_product_controller.Scheduler.Select.{search, or_system, choose, select_target}
use mpas_product_controller.Scheduler.Reconcile as SchedulerRun
use mpas_product_controller.Pipeline.Objects.{Mutation}
use mpas_product_controller.Pipeline.Localization.{create_or_update_localization}
use mpas_product_controller.Pipeline.Configuration.{create_or_update_configuration}
use mpas_product_controller.Pipeline.Env as PipelineWorld
use mpas_product_controller.Pipeline.Reconcile as PipelineRun
use mpas_product_controller.Lifecycle.{
  Step, localized, scheduled, edited, Reachable, created, stepped,
}

-- The object names a snapshot.
abbrev pub IsNamed : ProductDeploymentPipeline → Type 0
IsNamed obj = (ref : Key) × (obj.status.snapshot_ref ≡ some ref) × (ref.name ≢ "")

-- No target is selected, or the object names a snapshot.
abbrev pub IsSafe : ProductDeploymentPipeline → Type 0
IsSafe obj = (obj.status.selected_target_ref ≡ none) ⊎ IsNamed obj

module _ (env : SchedulerWorld.Env) (ref : Key) where
  abbrev Keeps : {A : Type 0} → SchedulerWorld.Run A → Type 0
  Keeps = Maintains (λ s. s.obj.status.snapshot_ref ≡ some ref)

  search-Keeps :
      (selector : LabelSelector) (namespace : String) → Keeps (search env selector namespace)
  unfolding search
  search-Keeps selector namespace =
      Maintains-bind _ _ (Maintains-on_error _ _ (Maintains-lift _) (λ e. Maintains-fail _))
        λ _. Maintains-on_error _ _ (Maintains-call _ _ (λ s h. h)) (λ e. Maintains-fail _)

  choose-Keeps : (ts : List Target) → Keeps (choose env ts)
  unfolding choose ◌>>=◌
  choose-Keeps [] = record { kept = λ s h. h }
  choose-Keeps (t ∷ []) = record { kept = λ s h. h }
  choose-Keeps (t ∷ u ∷ ts) = record {
    kept = λ s h.
        (Maintains-index {A = Target}
            {P = λ (x : Session SchedulerWorld.Call ProductDeploymentPipeline).
              x.obj.status.snapshot_ref ≡ some ref}
            (get_elem? (t ∷ u ∷ ts) (env.pick s.calls (length (t ∷ u ∷ ts))))).kept
          s h;
  }

  or_system-Keeps : (role : TargetRole) (found : List Target) → Keeps (or_system env role found)
  unfolding or_system
  or_system-Keeps role found =
      Maintains-if (nat_eq (length found) 0) _ _
        (λ _.
          Maintains-on_error _ _ (search-Keeps role.selector env.mpas_system_namespace)
            (λ e. Maintains-fail _))
        (λ _. Maintains-pure found)

  select_target-Keeps :
      (role : TargetRole) (namespace : String) → Keeps (select_target env role namespace)
  unfolding select_target
  select_target-Keeps role namespace =
      Maintains-bind _ _
        (Maintains-on_error _ _ (search-Keeps role.selector namespace) (λ e. Maintains-fail _))
        λ found. Maintains-bind _ _ (or_system-Keeps role found) λ listed. choose-Keeps _

  deployment_failed-Keeps :
      {A : Type 0} (context : String) (e : Error)
      → Keeps (SchedulerRun.deployment_failed env {A = A} context e)
  unfolding SchedulerRun.deployment_failed
  deployment_failed-Keeps context e =
      Maintains-bind _ _ (Maintains-modify _ (λ s h. h))
        λ _. Maintains-bind _ _ (Maintains-tell _ (λ s h. h)) λ _. Maintains-fail _

  deploy_to-Keeps : (target : Target) → Keeps (SchedulerRun.deploy_to env target)
  unfolding SchedulerRun.deploy_to
  deploy_to-Keeps target = Maintains-bind _ _ (Maintains-modify _ (λ s h. h)) λ _.
      Maintains-bind _ _ Maintains-read λ selected.
        Maintains-bind _ _
          (Maintains-on_error _ _ (Maintains-call _ _ (λ s h. h))
            (λ e. deployment_failed-Keeps _ e))
          λ _. Maintains-bind _ _ (Maintains-modify _ (λ s h. h)) λ _.
            Maintains-bind _ _ (Maintains-tell _ (λ s h. h))
              λ _. Maintains-bind _ _ (Maintains-modify _ (λ s h. h)) λ _. Maintains-pure _

  place-Keeps : Keeps (SchedulerRun.place env)
  unfolding SchedulerRun.place
  place-Keeps = Maintains-bind _ _ Maintains-read λ obj.
      Maintains-bind _ _ (Maintains-modify _ (λ s h. h)) λ _.
        Maintains-bind _ _
          (Maintains-on_error _ _ (select_target-Keeps obj.spec.target_role obj.meta.namespace)
            (λ e. deployment_failed-Keeps _ e))
          deploy_to-Keeps

  patch_status-Keeps : Keeps (SchedulerRun.patch_status env)
  unfolding SchedulerRun.patch_status
  patch_status-Keeps = Maintains-bind _ _ Maintains-read λ obj. Maintains-call _ _ (λ s h. h)

  with_snapshot-Keeps :
      (conditions : List Condition) → Keeps (SchedulerRun.with_snapshot env conditions)
  unfolding SchedulerRun.with_snapshot
  with_snapshot-Keeps conditions =
      Maintains-if (env.conditions.is_true ready_condition conditions) _ _
        (λ _. Maintains-deferring _ _ place-Keeps patch_status-Keeps) (λ _. Maintains-pure _)

  with_ref-Keeps : (found : Option Key) → Keeps (SchedulerRun.with_ref env found)
  unfolding SchedulerRun.with_ref
  with_ref-Keeps none = Maintains-pure _
  with_ref-Keeps (some found) =
      Maintains-if (found.name == "") _ _ (λ _. Maintains-pure _)
        (λ _.
          Maintains-fetch _ _ _ _ _ (Maintains-call _ _ (λ s h. h)) (Maintains-pure _)
            (λ s conditions h e. with_snapshot-Keeps conditions))

module _ (env : SchedulerWorld.Env) where
  -- With no name of a snapshot the scheduler stops at once.
  unnamed :
      (ref : Key) (s : Session SchedulerWorld.Call ProductDeploymentPipeline)
      → (ref.name == "") ≡ true
      → (SchedulerRun.with_ref env (some ref) s).1 ≡ s
  unfolding SchedulerRun.with_ref ◌>>=◌
  unnamed ref s e = rw e refl

  absent :
      (s : Session SchedulerWorld.Call ProductDeploymentPipeline)
      → (SchedulerRun.with_ref env none s).1 ≡ s
  unfolding SchedulerRun.with_ref ◌>>=◌
  absent s = refl

  with_ref-IsSafe :
      (o : Option Key) (s : Session SchedulerWorld.Call ProductDeploymentPipeline)
      → s.obj.status.snapshot_ref ≡ o
      → IsSafe s.obj
      → IsSafe (SchedulerRun.with_ref env o s).1.obj
  with_ref-IsSafe none s e safe = subst (λ t. IsSafe t.obj) (sym (absent s)) safe
  with_ref-IsSafe (some ref) s e safe = elim (Bool-cases (ref.name == "")) [
    | inl empty ↦ subst (λ t. IsSafe t.obj) (sym (unnamed ref s empty)) safe
    | inr named ↦
        inr (
          ref,
          (with_ref-Keeps env ref (some ref)).kept s e,
          λ k. ground (arith, eq_iff ref.name ""),
        )
  ]

  scheduled-IsSafe :
      (key : Key) (s : Session SchedulerWorld.Call ProductDeploymentPipeline)
      (obj : ProductDeploymentPipeline)
      → env.get_pipeline s.calls key ≡ done obj
      → IsSafe obj
      → IsSafe (SchedulerRun.reconcile env key s).1.obj
  unfolding SchedulerRun.reconcile ◌>>=◌
  scheduled-IsSafe key s obj e safe = rw e (
      with_ref-IsSafe obj.status.snapshot_ref
        (record { obj = obj; calls = SchedulerWorld.Call.get_pipeline key ∷ s.calls }) refl safe)

module _ (env : PipelineWorld.Env) where
  abbrev KeepsSafe : {A : Type 0} → PipelineWorld.Run A → Type 0
  KeepsSafe = Maintains (λ s. IsSafe s.obj)

  localization-KeepsSafe :
      (obj : ProductDeploymentPipeline) → KeepsSafe (create_or_update_localization env obj)
  unfolding create_or_update_localization
  localization-KeepsSafe obj =
      Maintains-if (obj.spec.localization.name == "") _ _ (λ _. Maintains-pure none)
        λ _.
          Maintains-bind _ _
            (Maintains-on_error _ _ (Maintains-create_or_update _ _ _ _ (λ t s h. h))
              (λ e. Maintains-fail _))
            λ m. Maintains-pure _

  configuration-KeepsSafe :
      (obj : ProductDeploymentPipeline) (localization : Option Mutation)
      → KeepsSafe (create_or_update_configuration env obj localization)
  unfolding create_or_update_configuration
  configuration-KeepsSafe obj localization =
      Maintains-if (obj.spec.configuration.rules.name == "") _ _ (λ _. Maintains-pure none)
        λ _.
          Maintains-bind _ _
            (Maintains-on_error _ _ (Maintains-create_or_update _ _ _ _ (λ t s h. h))
              (λ e. Maintains-fail _))
            λ m. Maintains-pure _

  creation_failed-KeepsSafe :
      {A : Type 0} (reason context : String) (e : Error)
      → KeepsSafe (PipelineRun.creation_failed env {A = A} reason context e)
  unfolding PipelineRun.creation_failed
  creation_failed-KeepsSafe reason context e =
      Maintains-bind _ _ (Maintains-modify _ (λ s h. h)) λ _. Maintains-fail _

  -- The only step that writes the name of a snapshot writes one that is not empty.
  publish-KeepsSafe : (name : String) → KeepsSafe (PipelineRun.publish env name)
  unfolding PipelineRun.publish
  publish-KeepsSafe name =
      Maintains-if (name == "") _ _ (λ _. Maintains-pure _)
        λ e.
          Maintains-bind _ _
            (Maintains-modify _ (λ s h. inr (
              record { name = name; namespace = s.obj.meta.namespace },
              refl,
              λ k. ground (arith, eq_iff name ""),
            )))
            λ _. Maintains-bind _ _ (Maintains-modify _ (λ s h. h)) λ _. Maintains-pure _

  finish-KeepsSafe : (p : PipelineRun.Provider) → KeepsSafe (PipelineRun.finish env p)
  unfolding PipelineRun.finish
  finish-KeepsSafe none = Maintains-bind _ _ (Maintains-modify _ (λ s h. h)) λ _. Maintains-fail _
  finish-KeepsSafe (some none) = Maintains-panic
  finish-KeepsSafe (some (some m)) = publish-KeepsSafe m.snapshot_name

  configured-KeepsSafe :
      (obj : ProductDeploymentPipeline) (localization : Option Mutation)
      → KeepsSafe (PipelineRun.configured env obj localization)
  unfolding PipelineRun.configured
  configured-KeepsSafe obj localization =
      Maintains-bind _ _
        (Maintains-on_error _ _ (configuration-KeepsSafe obj localization)
          (λ e. creation_failed-KeepsSafe _ _ e))
        λ configuration. finish-KeepsSafe _

  progress-KeepsSafe : KeepsSafe (PipelineRun.progress env)
  unfolding PipelineRun.progress
  progress-KeepsSafe = Maintains-bind _ _ Maintains-read λ obj.
      Maintains-bind _ _ (Maintains-modify _ (λ s h. h)) λ _.
        Maintains-bind _ _
          (Maintains-on_error _ _ (localization-KeepsSafe obj)
            (λ e. creation_failed-KeepsSafe _ _ e))
          (configured-KeepsSafe obj)

  patch_status-KeepsSafe : KeepsSafe (PipelineRun.patch_status env)
  unfolding PipelineRun.patch_status
  patch_status-KeepsSafe = Maintains-bind _ _ Maintains-read λ obj. Maintains-call _ _ (λ s h. h)

  with_owners-KeepsSafe :
      (obj : ProductDeploymentPipeline) (owners : List OwnerReference)
      → KeepsSafe (PipelineRun.with_owners env obj owners)
  unfolding PipelineRun.with_owners
  with_owners-KeepsSafe obj [] = Maintains-fail _
  with_owners-KeepsSafe obj (owner ∷ []) =
      Maintains-bind _ _
        (Maintains-on_error _ _ (Maintains-call _ _ (λ s h. h)) (λ e. Maintains-fail _))
        λ _. Maintains-deferring _ _ progress-KeepsSafe patch_status-KeepsSafe
  with_owners-KeepsSafe obj (owner ∷ second ∷ owners) = Maintains-fail _

  localized-IsSafe :
      (key : Key) (s : Session PipelineWorld.Call ProductDeploymentPipeline)
      (obj : ProductDeploymentPipeline)
      → env.get_pipeline s.calls key ≡ done obj
      → IsSafe obj
      → IsSafe (PipelineRun.reconcile env key s).1.obj
  unfolding PipelineRun.reconcile ◌>>=◌
  localized-IsSafe key s obj e safe = rw e (
      (with_owners-KeepsSafe obj obj.meta.owners).kept
        (record { obj = obj; calls = PipelineWorld.Call.get_pipeline key ∷ s.calls }) safe)

Step-IsSafe : (obj next : ProductDeploymentPipeline) → Step obj next → IsSafe obj → IsSafe next
Step-IsSafe obj next (localized env key s e) safe = localized-IsSafe env key s obj e safe
Step-IsSafe obj next (scheduled env key s e) safe = scheduled-IsSafe env key s obj e safe
Step-IsSafe obj next (edited meta spec) safe = safe

-- However the runs of the pipeline controller and of the scheduler, each with its patch, and changes
-- of the spec follow one another, and whatever the world outside answers: a pipeline object in which
-- a target is selected names a snapshot, with a name that is not empty.
pub Reachable-IsSafe : (obj : ProductDeploymentPipeline) → Reachable obj → IsSafe obj
Reachable-IsSafe obj (created meta spec) = inl refl
Reachable-IsSafe obj (stepped {obj = before} reached step) =
    Step-IsSafe before obj step (Reachable-IsSafe before reached)
