-- ===== src/Validating/Once.antt =====
-- What the validation of an artifact does, and that it is done once for a digest.
use mpas_product_controller.Base.{
  ◌≡◌, ◌≢◌, ap, ◌∙◌, inl, inr, ◌⊎◌, String, ◌==◌, ◌∷◌, some, arith, eq_iff, eq_refl, Bool-cases,
}
use mpas_product_controller.Kube.Errors.{Result, after}
use mpas_product_controller.Kube.Action.{Session, Outcome-cases, ◌>>=◌, done}
use mpas_product_controller.Kube.Conditions.{
  ConditionLaws, condition, holds, ready_condition, succeeded_reason,
}
use mpas_product_controller.Api.{Validation, success_validation_outcome}
use mpas_product_controller.Git.{Repository, Sync}
use mpas_product_controller.Validating.Env.{Call, Env, Artifact}
use mpas_product_controller.Validating.Reconcile.{failed, validate, with_artifact}

module _ (env : Env) (product : String) (sync : Sync) (repository : Repository)
    (artifact : Artifact) where
  validate_digest :
      (s : Session Call Validation)
      → ((validate env product sync repository artifact s).1.obj.status.last_validated_digest
          ≡ artifact.digest)
        × ((validate env product sync repository artifact s).1.obj.spec ≡ s.obj.spec)
  unfolding validate failed ◌>>=◌
  validate_digest s = (ground arith, ground arith)

  with_artifact_known :
      (s : Session Call Validation)
      → s.obj.status.last_validated_digest ≡ artifact.digest
      → with_artifact env product sync repository (some artifact) s
        ≡ (done (after s.obj.spec.interval), s)
  unfolding with_artifact ◌>>=◌
  with_artifact_known s h = ground (arith, eq_refl artifact.digest)

  with_artifact_digest :
      (s : Session Call Validation)
      → ((with_artifact env product sync repository
            (some artifact)
            s).1.obj.status.last_validated_digest
          ≡ artifact.digest)
        × ((with_artifact env product sync repository (some artifact) s).1.obj.spec ≡ s.obj.spec)
  unfolding with_artifact ◌>>=◌
  with_artifact_digest s =
      elim (Bool-cases (artifact.digest == s.obj.status.last_validated_digest)) [
        | inl k ↦ (
          ground (arith, k, eq_iff artifact.digest s.obj.status.last_validated_digest),
          ground (arith, k),
        )
        | inr k ↦ (rw k (validate_digest s).0, rw k (validate_digest s).1)
      ]

  -- However a run on an artifact ends, the next run on the same artifact, from the state that this
  -- one leaves, makes no call, changes nothing, and asks to be run again after the interval.
  pub validated_once :
      (s : Session Call Validation)
      → with_artifact env product sync repository
          (some artifact)
          (with_artifact env product sync repository (some artifact) s).1
        ≡ (
          done (after s.obj.spec.interval),
          (with_artifact env product sync repository (some artifact) s).1,
        )
  validated_once s =
      let (digest, spec) = with_artifact_digest s in
      with_artifact_known (with_artifact env product sync repository (some artifact) s).1 digest
      ∙ ap
          (λ t. (
            done (after t.interval),
            (with_artifact env product sync repository (some artifact) s).1,
          ))
          spec

  -- The texts are files of the configuration language, and the values are valid by the schema.
  pub record IsValid (values schema : String) : Type 0 where
    pub file : env.new_file "config" values ≡ done tt
    pub schema_file : env.new_file "schema" schema ≡ done tt
    pub valid : env.validate values schema ≡ done tt

  -- The validation either ends with no other call than the download, and then with an error or a
  -- panic, or the downloaded values are valid by the schema of the object and the pull request is
  -- told so, once.
  pub validate_passes :
      (s : Session Call Validation)
      → (((validate env product sync repository artifact s).1.calls
            ≡ Call.fetch_values product artifact ∷ s.calls)
          × ((r : Result) → (validate env product sync repository artifact s).0 ≢ done r))
        ⊎ ((values : String) × (env.fetch_values s.calls product artifact ≡ done values)
            × IsValid values s.obj.spec.schema
            × ((validate env product sync repository artifact s).1.calls
                ≡ Call.pass_validation repository sync
                  ∷ Call.fetch_values product artifact
                  ∷ s.calls))
  unfolding validate failed ◌>>=◌
  validate_passes s = elim (Outcome-cases (env.fetch_values s.calls product artifact)) [
    | inl (values, e) ↦ elim (Outcome-cases (env.new_file "config" values)) [
      | inl (tt, f) ↦ elim (Outcome-cases (env.new_file "schema" s.obj.spec.schema)) [
        | inl (tt, g) ↦ elim (Outcome-cases (env.validate values s.obj.spec.schema)) [
          | inl (tt, h) ↦
              inr (values, e, record { file = f; schema_file = g; valid = h }, ground arith)
          | inr bad ↦ inl (ground arith, λ r. ground arith)
        ]
        | inr bad ↦ inl (ground arith, λ r. ground arith)
      ]
      | inr bad ↦ inl (ground arith, λ r. ground arith)
    ]
    | inr bad ↦ inl (ground arith, λ r. ground arith)
  ]

  -- Where the validation of an artifact returns no error, the object is ready, its outcome is
  -- success, and it is run again after the interval.
  pub validate_success :
      (s : Session Call Validation) (r : Result)
      → ConditionLaws env.conditions
      → (validate env product sync repository artifact s).0 ≡ done r
      → (env.conditions.get ready_condition
            (validate env product sync repository artifact s).1.obj.status.conditions
          ≡ some (condition ready_condition holds succeeded_reason "Reconciliation success"))
        × ((validate env product sync repository artifact
              s).1.obj.status.last_validated_digest_outcome
            ≡ success_validation_outcome)
        × (r ≡ after s.obj.spec.interval)
  unfolding validate failed ◌>>=◌
  validate_success s r laws h =
      let c = condition ready_condition holds succeeded_reason "Reconciliation success" in
      (
        ground (
          arith,
          laws.mark_true-put ready_condition succeeded_reason c.message s.obj.status.conditions,
          laws.get-put c s.obj.status.conditions,
        ),
        ground arith,
        ground arith,
      )
