-- ===== src/Generating/Gates.antt =====
-- When a generator runs, and what it reports when it does not.
use mpas_product_controller.Base.{
  ◌≡◌, refl, ◌↔◌, ◌⊎◌, inl, inr, String, true, false, ◌==◌, some, eq_iff, arith, Bool-cases,
}
use mpas_product_controller.Kube.Errors.{no_requeue}
use mpas_product_controller.Kube.Action.{Session, Outcome-cases, ◌>>=◌, done}
use mpas_product_controller.Kube.Conditions.{
  ConditionLaws, condition, holds, ready_condition, succeeded_reason,
}
use mpas_product_controller.Api.{ProductDeploymentGenerator}
use mpas_product_controller.Generating.Env.{Call, Env, Subscription, failed}
use mpas_product_controller.Generating.Gate.{is_newer, should_run}
use mpas_product_controller.Generating.Reconcile.{with_subscription, reconcile_object}

module _ (env : Env) where
  -- The applied version is above the reconciled one: both parse, and the comparisons say so.
  pub record IsNewer (reconciled applied : String) : Type 0 where
    pub old : String
    pub new : String
    pub parsed_old : env.parse_version reconciled ≡ done old
    pub parsed_new : env.parse_version applied ≡ done new
    pub differs : env.version_equal new old ≡ false
    pub above : env.version_less new old ≡ false

  is_newer-IsNewer :
      (reconciled applied : String) (s : Session Call ProductDeploymentGenerator)
      → (is_newer env reconciled applied s).0 ≡ done true
      → IsNewer reconciled applied
  unfolding is_newer failed ◌>>=◌
  is_newer-IsNewer reconciled applied s h = elim (Outcome-cases (env.parse_version reconciled)) [
    | inl (old, e) ↦ elim (Outcome-cases (env.parse_version applied)) [
      | inl (new, f) ↦ record {
        old = old;
        new = new;
        parsed_old = e;
        parsed_new = f;
        differs = ground arith;
        above = ground arith;
      }
      | inr bad ↦ absurd (ground arith)
    ]
    | inr bad ↦ absurd (ground arith)
  ]

  newer_runs :
      (reconciled applied : String) (s : Session Call ProductDeploymentGenerator)
      → IsNewer reconciled applied
      → (is_newer env reconciled applied s).0 ≡ done true
  unfolding is_newer ◌>>=◌
  newer_runs reconciled applied s n = ground (arith, n.parsed_old, n.parsed_new, n.differs, n.above)

  -- The generator runs exactly when the subscription is ready, and either nothing was reconciled
  -- before or both versions parse and the applied one is neither equal to nor below the reconciled.
  pub should_run_iff :
      (subscription : Subscription) (s : Session Call ProductDeploymentGenerator)
      → ((should_run env subscription s).0 ≡ done true) ↔ (
          (env.conditions.is_ready subscription.conditions ≡ true)
          × ((s.obj.status.last_reconciled_version ≡ "")
              ⊎ IsNewer s.obj.status.last_reconciled_version subscription.last_applied_version))
  unfolding should_run ◌>>=◌
  should_run_iff subscription s = (λ h. (ground arith, reason h), answer)
    where
      last : String
      last = s.obj.status.last_reconciled_version

      reason :
          (should_run env subscription s).0 ≡ done true
          → (last ≡ "") ⊎ IsNewer last subscription.last_applied_version
      reason h = elim (Bool-cases (last == "")) [
        | inl e ↦ inl (ground (arith, eq_iff last ""))
        | inr e ↦ inr (is_newer-IsNewer last subscription.last_applied_version s (ground arith))
      ]

      answer :
          (env.conditions.is_ready subscription.conditions ≡ true)
            × ((last ≡ "") ⊎ IsNewer last subscription.last_applied_version)
          → (should_run env subscription s).0 ≡ done true
      answer (r, inl e) = ground (arith, eq_iff last "")
      answer (r, inr n) = ground (arith, newer_runs last subscription.last_applied_version s n)

  -- Where the subscription is not ready, the run ends well, and the object is left with Ready true
  -- and the message of a success.
  pub reconcile_object_not_ready :
      (obj : ProductDeploymentGenerator) (subscription : Subscription)
      (s : Session Call ProductDeploymentGenerator)
      → ConditionLaws env.conditions
      → env.get_subscription s.calls obj.spec.subscription_ref ≡ done subscription
      → env.conditions.is_ready subscription.conditions ≡ false
      → ((reconcile_object env obj s).0 ≡ done no_requeue)
        × (env.conditions.get ready_condition (reconcile_object env obj s).1.obj.status.conditions
            ≡ some (condition ready_condition holds succeeded_reason "Reconciliation success"))
  unfolding reconcile_object should_run with_subscription ◌>>=◌
  reconcile_object_not_ready obj subscription s laws e n =
      rw (e, n) (refl, laws.get_ready-mark_ready _ _)
