-- ===== src/Scheduler/Gates.antt =====
-- When the scheduler deploys, and what it reports.
use mpas_product_controller.Base.{
  ◌≡◌, refl, ◌≢◌, inl, inr, true, List, [], ◌∷◌, Option, some, none, ◌==◌, eq_iff, arith, Contains,
  Bool-cases,
}
use mpas_product_controller.Kube.Errors.{Key}
use mpas_product_controller.Kube.Action.{Session, Outcome-cases, ◌>>=◌, done}
use mpas_product_controller.Kube.Conditions.{Condition, ready_condition}
use mpas_product_controller.Api.{ProductDeploymentPipeline}
use mpas_product_controller.Scheduler.Env.{Call, Env}
use mpas_product_controller.Scheduler.Reconcile.{with_snapshot, with_ref, reconcile}

-- The session before the first call; the object is the zero value that Get fills.
abbrev pub start : ProductDeploymentPipeline → Session Call ProductDeploymentPipeline
start zero = record { obj = zero; calls = [] }

-- What must hold before a deployment: the pipeline is there, it names a snapshot, and the snapshot
-- is there and ready.
pub record IsOpen (env : Env) (key : Key) : Type 0 where
  pub obj : ProductDeploymentPipeline
  pub ref : Key
  pub snapshot : List Condition
  pub found : env.get_pipeline [] key ≡ done obj
  pub named : obj.status.snapshot_ref ≡ some ref
  pub not_empty : ref.name ≢ ""
  pub answered : env.get_snapshot (Call.get_pipeline key ∷ []) ref ≡ done snapshot
  pub ready : env.conditions.is_true ready_condition snapshot ≡ true

module _ (env : Env) (key : Key) (p : ProductDeploymentPipeline) where
  -- A run that has deployed has passed the gates.
  abbrev Gated : Session Call ProductDeploymentPipeline → Type 0
  Gated s = Contains (Call.deploy p) s.calls → IsOpen env key

  place-Gated : IsOpen env key → (s : Session Call ProductDeploymentPipeline) → Gated s
  place-Gated g s c = g

  with_ref-Gated :
      (obj : ProductDeploymentPipeline) (r : Option Key)
      → env.get_pipeline [] key ≡ done obj
      → obj.status.snapshot_ref ≡ r
      → Gated (with_ref env r (record { obj = obj; calls = Call.get_pipeline key ∷ [] })).1
  unfolding with_ref with_snapshot ◌>>=◌
  with_ref-Gated obj none found named c = absurd (ground arith)
  with_ref-Gated obj (some ref) found named c = elim (Bool-cases (ref.name == "")) [
    | inl empty ↦ absurd (ground arith)
    | inr full ↦ elim (Outcome-cases (env.get_snapshot (Call.get_pipeline key ∷ []) ref)) [
      | inl (snapshot, answered) ↦
          elim (Bool-cases (env.conditions.is_true ready_condition snapshot)) [
            | inl ready ↦ record {
              obj = obj;
              ref = ref;
              snapshot = snapshot;
              found = found;
              named = named;
              not_empty = λ e. ground (arith, eq_iff ref.name "");
              answered = answered;
              ready = ready;
            }
            | inr waits ↦ absurd (ground arith)
          ]
      | inr (inl bad) ↦ elim (Bool-cases (env.is_not_found bad.0)) [
        | inl gone ↦ absurd (ground arith)
        | inr failed ↦ absurd (ground arith)
      ]
      | inr (inr bad) ↦ absurd (ground arith)
    ]
  ]

  -- A run of Reconcile that calls the deployer, on any pipeline, has found the pipeline of the
  -- request with a snapshot reference whose name is not empty, and the snapshot with Ready true.
  pub reconcile_gated :
      (zero : ProductDeploymentPipeline)
      → Contains (Call.deploy p) (reconcile env key (start zero)).1.calls
      → IsOpen env key
  unfolding reconcile ◌>>=◌
  reconcile_gated zero c = elim (Outcome-cases (env.get_pipeline [] key)) [
    | inl (obj, found) ↦ with_ref-Gated obj obj.status.snapshot_ref found refl (ground arith)
    | inr (inl bad) ↦ elim (Bool-cases (env.is_not_found bad.0)) [
      | inl gone ↦ absurd (ground arith)
      | inr failed ↦ absurd (ground arith)
    ]
    | inr (inr bad) ↦ absurd (ground arith)
  ]
