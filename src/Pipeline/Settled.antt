-- ===== src/Pipeline/Settled.antt =====
-- What a settled pipeline publishes, and when a configuration is brought up to date.
use mpas_product_controller.Base.{
  ◌≡◌, refl, ap, ◌≢◌, ◌⊎◌, inl, inr, String, ◌&&◌, Option, none, some, ◌==◌, ◌<>◌, if◌then◌else◌,
  eq_iff, arith, Bool-cases,
}
use mpas_product_controller.Kube.Errors.{no_requeue}
use mpas_product_controller.Kube.Action.{Outcome, Session, ◌>>=◌, done, fails, panics}
use mpas_product_controller.Kube.Conditions.{
  ConditionLaws, ready_condition, progressing_reason, succeeded_reason, condition, holds,
}
use mpas_product_controller.Api.{ResourceReference, ProductDeploymentPipeline}
use mpas_product_controller.Pipeline.Objects.{
  Mutation, MutationSpec, ObjectReference, ConfigMapSource,
}
use mpas_product_controller.Pipeline.Env.{Call, Env, set_status}
use mpas_product_controller.Pipeline.Localization.{create_or_update_localization}
use mpas_product_controller.Pipeline.Configuration.{
  configuration_spec, refresh, create_or_update_configuration,
}
use mpas_product_controller.Pipeline.Reconcile.{
  Provider, provider, publish, finish, creation_failed, configured, progress,
}

-- A configuration that was made from the component version, as the controller makes it.
abbrev pub IsConfigured :
    MutationSpec → ResourceReference → ResourceReference → ConfigMapSource → Type 0
IsConfigured old x c v =
    (old.source_ref.resource_ref ≡ some x)
    × ((r : ObjectReference) × (old.config_ref ≡ some r) × (r.resource_ref ≡ some c))
    × (old.values_from ≡ some (some v))

-- Without a localization, the spec of a configuration that was made from a component version, with
-- its three references set, is replaced by the wanted one exactly when the name of the source, of
-- the rules or of the config map differs, and else it is left as it is, whatever else differs.
pub refresh_lem :
    (obj : ProductDeploymentPipeline) (old : MutationSpec) (x c : ResourceReference)
    (v : ConfigMapSource)
    → IsConfigured old x c v
    → refresh (configuration_spec obj none) old
      ≡ done (
          if x.name == obj.spec.resource.name
            && c.name == obj.spec.configuration.rules.name
            && v.source_ref == obj.spec.config_map_ref
          then old
          else configuration_spec obj none)
unfolding refresh
refresh_lem obj old x c v (a, (r, b, b'), d) = ground (
  arith,
  a,
  b,
  b',
  d,
  eq_iff obj.spec.resource.name obj.spec.resource.name,
  eq_iff obj.spec.configuration.rules.name obj.spec.configuration.rules.name,
  eq_iff obj.spec.config_map_ref obj.spec.config_map_ref,
)

module _ (env : Env) (laws : ConditionLaws env.conditions) where
  -- The status of a settled pipeline: it names a snapshot in the pipeline's namespace, and Ready
  -- holds.
  abbrev pub Publishes : String → ProductDeploymentPipeline → Type 0
  Publishes name obj =
      (name ≢ "")
      × (obj.status.snapshot_ref ≡ some (record { name = name; namespace = obj.meta.namespace }))
      × (env.conditions.get ready_condition obj.status.conditions
          ≡ some (condition ready_condition holds succeeded_reason "Reconciliation success"))

  publish_done :
      (name : String) (s : Session Call ProductDeploymentPipeline)
      → (publish env name s).0 ≡ done no_requeue
      → Publishes name (publish env name s).1.obj
  unfolding publish ◌>>=◌
  publish_done name s h = elim (Bool-cases (name == "")) [
    | inl empty ↦ absurd (ground arith)
    | inr full ↦ (
      (λ e. ground (arith, eq_iff name "")),
      rw full refl,
      rw full (laws.get_ready-mark_ready _ _),
    )
  ]

  finish_done :
      (p : Provider) (s : Session Call ProductDeploymentPipeline)
      → (finish env p s).0 ≡ done no_requeue
      → (m : Mutation) × (p ≡ some (some m)) × Publishes m.snapshot_name (finish env p s).1.obj
  unfolding finish ◌>>=◌
  finish_done none s h = absurd (cc)
  finish_done (some none) s h = absurd (cc)
  finish_done (some (some m)) s h = (m, refl, publish_done m.snapshot_name s h)

  -- The provider is the configuration, or the localization if there is no configuration.
  provider_chosen :
      (localization configuration : Option Mutation) (m : Mutation)
      → provider localization configuration ≡ some (some m)
      → (configuration ≡ some m) ⊎ ((configuration ≡ none) × (localization ≡ some m))
  provider_chosen localization none m e = inr (refl, cc)
  provider_chosen localization (some c) m e = inl (cc)

  -- What a run that settles has gone through from the configuration on, which starts in `s`.
  abbrev pub Settles :
      ProductDeploymentPipeline
      → Option Mutation
      → Session Call ProductDeploymentPipeline
      → ProductDeploymentPipeline
      → Type 0
  Settles obj localization s final =
      (configuration : Option Mutation) × (m : Mutation) × ((create_or_update_configuration env obj
          localization s).0
        ≡ done configuration)
      × ((configuration ≡ some m) ⊎ ((configuration ≡ none) × (localization ≡ some m)))
      × Publishes m.snapshot_name final

  configured-Settles :
      (obj : ProductDeploymentPipeline) (localization : Option Mutation)
      (s : Session Call ProductDeploymentPipeline)
      → (configured env obj localization s).0 ≡ done no_requeue
      → Settles obj localization s (configured env obj localization s).1.obj
  unfolding configured creation_failed ◌>>=◌
  configured-Settles obj l s h = split (create_or_update_configuration env obj l s) refl
    where
      split :
          (a : Outcome (Option Mutation) × Session Call ProductDeploymentPipeline)
          → create_or_update_configuration env obj l s ≡ a
          → Settles obj l s (configured env obj l s).1.obj
      split (done c, s') e =
          let (m, p, q) = finish_done (provider l c) s' (rw e at h) in
          (c, m, ap (λ a. a.0) e, provider_chosen l c m p, rw e q)
      split (fails x, s') e = absurd (cc (rw e at h))
      split (panics, s') e = absurd (cc (rw e at h))

  -- The state in which the run creates the localization.
  abbrev pub shown : Session Call ProductDeploymentPipeline → Session Call ProductDeploymentPipeline
  shown s = record s {
    obj =
        set_status
          (λ st. record st {
            conditions =
                env.conditions.progressive progressing_reason
                  ("reconciliation in progress for resource: " <> s.obj.meta.name) st.conditions;
          })
          s.obj;
  }

  -- A run that ends with no error and no requeue has published the snapshot of the configuration
  -- that it ended its update with, or of its localization if there is no configuration; the snapshot
  -- has a name and Ready holds.
  pub progress-Settles :
      (s : Session Call ProductDeploymentPipeline)
      → (progress env s).0 ≡ done no_requeue
      → (localization : Option Mutation) × ((create_or_update_localization env s.obj (shown s)).0
          ≡ done localization)
        × Settles s.obj localization
            (create_or_update_localization env s.obj (shown s)).1
            (progress env s).1.obj
  unfolding progress ◌>>=◌
  progress-Settles s h = split (create_or_update_localization env s.obj (shown s)) refl
    where
      split :
          (a : Outcome (Option Mutation) × Session Call ProductDeploymentPipeline)
          → create_or_update_localization env s.obj (shown s) ≡ a
          → (localization : Option Mutation) × ((create_or_update_localization env s.obj
                (shown s)).0
              ≡ done localization)
            × Settles s.obj localization
                (create_or_update_localization env s.obj (shown s)).1
                (progress env s).1.obj
      split (done l, s') e = (l, ap (λ a. a.0) e, rw e (configured-Settles s.obj l s' (rw e at h)))
      split (fails x, s') e = absurd (cc (rw e at h))
      split (panics, s') e = absurd (cc (rw e at h))
