-- ===== src/Deployer/Chain.antt =====
-- What a deployment that succeeds has read and written.
use mpas_product_controller.Base.{
  ◌≡◌, refl, sym, ap, subst, ◌∙◌, ◌⊎◌, inl, inr, String, true, List, [], ◌∷◌, Option, none, some,
  eq_iff, arith, Option-cases,
}
use mpas_product_controller.Kube.Errors.{Key}
use mpas_product_controller.Kube.Action.{Session, Outcome-cases, ◌>>=◌, done}
use mpas_product_controller.Kube.Action.Succeeds.{steps, on_error_steps, fail_never, pure_keeps}
use mpas_product_controller.Kube.Store.{Stored, create_or_update-Stored}
use mpas_product_controller.Kube.Objects.{ObjectLaws}
use mpas_product_controller.Api.{
  OwnerReference, Target, KubernetesAccess, ProductDeploymentPipeline, kubernetes,
}
use mpas_product_controller.Deployer.Objects.{FluxDeployer, kustomization}
use mpas_product_controller.Deployer.{
  Call, Env, Deploys, own, create_kustomization, from_snapshot, with_access, to_target, deploy,
}

abbrev pub Start : Type 0
Start = Session Call (Unit {0})

-- A new FluxDeployer: the source is the owner of the snapshot, in the pipeline's namespace, and it
-- is applied to the namespace of the access.
pub record IsDescribed (obj : ProductDeploymentPipeline) (access : KubernetesAccess)
    (owner : OwnerReference) (d : FluxDeployer) : Type 0 where
  pub kind : d.source_kind ≡ owner.kind
  pub source : d.source_name ≡ owner.name
  pub source_namespace : d.source_namespace ≡ obj.meta.namespace
  pub pruned : d.prune ≡ true
  pub target_namespace : d.target_namespace ≡ access.target_namespace

module _ (env : Env) (obj : ProductDeploymentPipeline) where
  -- There was no FluxDeployer, and the last call has written a new one, owned by the pipeline.
  abbrev IsNew : KubernetesAccess → OwnerReference → List Call → List Call → Type 0
  IsNew access owner before final =
      (d : FluxDeployer) × (env.flux_deployers.find before (kustomization obj access owner)
        ≡ done none)
      × (env.set_owner obj.meta (kustomization obj access owner).meta ≡ done d.meta)
      × IsDescribed obj access owner d
      × (final ≡ Call.apply d ∷ before)

  -- There was one, and nothing was written.
  abbrev IsLeft : KubernetesAccess → OwnerReference → List Call → List Call → Type 0
  IsLeft access owner before final =
      (d : FluxDeployer) × (env.flux_deployers.find before (kustomization obj access owner)
        ≡ done (some d))
      × (final ≡ before)

  created :
      (access : KubernetesAccess) (owner : OwnerReference) (d : FluxDeployer)
      → own env obj (kustomization obj access owner) ≡ done d
      → (env.set_owner obj.meta (kustomization obj access owner).meta ≡ done d.meta)
        × IsDescribed obj access owner d
  unfolding own kustomization
  created access owner d h =
      elim (Outcome-cases (env.set_owner obj.meta (kustomization obj access owner).meta)) [
        | inl (m, e) ↦ (
          ground arith,
          record {
            kind = ground arith;
            source = ground arith;
            source_namespace = ground arith;
            pruned = ground arith;
            target_namespace = ground arith;
          },
        )
        | inr bad ↦ absurd (ground arith)
      ]

  own_created : (b d : FluxDeployer) → b.meta.created ≡ true → own env obj b ≡ done d → d ≡ b
  unfolding own
  own_created b d c h = ground arith

  stored :
      (access : KubernetesAccess) (owner : OwnerReference) (before final : List Call)
      (d : FluxDeployer)
      → ObjectLaws env.flux_deployers (λ t. t.meta)
      → Stored env.flux_deployers Call.apply
          (own env obj)
          (kustomization obj access owner)
          before
          d
          final
      → IsNew access owner before final ⊎ IsLeft access owner before final
  stored access owner before final d laws st = elim (Option-cases st.existing) [
    | inl e ↦
        let (a, b) = created access owner d (rw e at st.mutated) in
        inl (d, st.found ∙ ap done e, a, b, rw e at st.recorded)
    | inr (b, e) ↦
        let f = st.found ∙ ap done e in
        let c = laws.found-created before (kustomization obj access owner) b f in
        let q = own_created b d c (rw e at st.mutated) in
        inr (b, f, ground (arith, st.recorded, laws.same_refl b))
  ]

  create_stores :
      ObjectLaws env.flux_deployers (λ t. t.meta)
      → (access : KubernetesAccess) (owners : List OwnerReference) (s : Start)
      → (create_kustomization env obj access owners s).0 ≡ done tt
      → (owner : OwnerReference) × (owners ≡ owner ∷ [])
        × (IsNew access owner s.calls (create_kustomization env obj access owners s).1.calls
            ⊎ IsLeft access owner s.calls (create_kustomization env obj access owners s).1.calls)
  unfolding create_kustomization
  create_stores laws access [] s h = absurd (fail_never _ s tt h)
  create_stores laws access (o ∷ p ∷ ps) s h = absurd (fail_never _ s tt h)
  create_stores laws access (owner ∷ []) s h =
      let Ends =
        λ (t : Start). IsNew access owner s.calls t.calls ⊎ IsLeft access owner s.calls t.calls in
      (
        owner,
        refl,
        steps (λ r. Ends r.1) _ _ s tt h
            (λ d a h1.
              let (e, same) = on_error_steps _ _ s d (λ x t. fail_never _ t d) a in
              pure_keeps Ends tt _ (
                subst (λ x. Ends x.1) (sym same)
                  (stored access owner s.calls _ d laws (
                    create_or_update-Stored env.flux_deployers Call.apply (own env obj)
                      (kustomization obj access owner) s d e)))),
      )

  -- What a deployment that succeeds has read and written.
  abbrev pub Success : Target → List Call → List Call → Type 0
  Success target calls final =
      (raw : String) × (access : KubernetesAccess) × (ref : Key) × (owner : OwnerReference)
      × (target.spec.access ≡ some raw)
      × (env.parse_access raw ≡ done access)
      × (obj.status.snapshot_ref ≡ some ref)
      × (env.get_snapshot calls ref ≡ done (owner ∷ []))
      × (IsNew access owner (Call.get_snapshot ref ∷ calls) final
          ⊎ IsLeft access owner (Call.get_snapshot ref ∷ calls) final)

  module _ (laws : ObjectLaws env.flux_deployers (λ t. t.meta)) where
    from_snapshot-Success :
        (target : Target) (raw : String) (access : KubernetesAccess) (r : Option Key) (s : Start)
        → target.spec.access ≡ some raw
        → env.parse_access raw ≡ done access
        → obj.status.snapshot_ref ≡ r
        → (from_snapshot env obj access r s).0 ≡ done tt
        → Success target s.calls (from_snapshot env obj access r s).1.calls
    unfolding from_snapshot ◌>>=◌
    from_snapshot-Success target raw access none s a p e h = absurd (cc)
    from_snapshot-Success target raw access (some ref) s a p e h =
        elim (Outcome-cases (env.get_snapshot s.calls ref)) [
          | inl (owners, f) ↦
              let s' : Start = record s { calls = Call.get_snapshot ref ∷ s.calls } in
              let (owner, g, w) = create_stores laws access owners s' (rw f at h) in
              (raw, access, ref, owner, a, p, e, f ∙ ap done g, rw f w)
          | inr bad ↦ absurd (ground arith)
        ]

    with_access-Success :
        (target : Target) (r : Option String) (s : Start)
        → target.spec.access ≡ r
        → (with_access env obj r s).0 ≡ done tt
        → Success target s.calls (with_access env obj r s).1.calls
    unfolding with_access ◌>>=◌
    with_access-Success target none s a h = absurd (cc)
    with_access-Success target (some raw) s a h = elim (Outcome-cases (env.parse_access raw)) [
      | inl (access, p) ↦
          rw p
            (from_snapshot-Success target raw access obj.status.snapshot_ref s a p refl (rw p at h))
      | inr bad ↦ absurd (ground arith)
    ]

  to_target-kubernetes :
      (next : Option Deploys) (ref : Key) (target : Target) (s : Start)
      → env.get_target s.calls ref ≡ done target
      → target.spec.type ≡ kubernetes
      → to_target env next obj (some ref) s
        ≡ with_access env obj target.spec.access
            (record s { calls = Call.get_target ref ∷ s.calls })
  unfolding to_target ◌>>=◌
  to_target-kubernetes next ref target s f g = rw (f, (eq_iff target.spec.type kubernetes).1 g)

  deploy_kubernetes :
      (next : Option Deploys) (ref : Key) (target : Target) (s : Start)
      → obj.status.selected_target_ref ≡ some ref
      → env.get_target s.calls ref ≡ done target
      → target.spec.type ≡ kubernetes
      → deploy env next obj s
        ≡ with_access env obj target.spec.access
            (record s { calls = Call.get_target ref ∷ s.calls })
  unfolding deploy
  deploy_kubernetes next ref target s e f g =
      ap (λ r. to_target env next obj r s) e ∙ to_target-kubernetes next ref target s f g

  -- Where the laws of found objects hold, the target is of type kubernetes and the deployment
  -- returns no error, it has read the target's access and has found exactly one owner of the
  -- snapshot. If the cluster had no FluxDeployer of the pipeline, the last call has written one,
  -- with the owner as its source, for the namespace of the access, and owned by the pipeline; if it
  -- had one, nothing was written.
  pub deploy-Success :
      (next : Option Deploys) (ref : Key) (target : Target) (s : Start)
      → ObjectLaws env.flux_deployers (λ t. t.meta)
      → obj.status.selected_target_ref ≡ some ref
      → env.get_target s.calls ref ≡ done target
      → target.spec.type ≡ kubernetes
      → (deploy env next obj s).0 ≡ done tt
      → Success target (Call.get_target ref ∷ s.calls) (deploy env next obj s).1.calls
  deploy-Success next ref target s laws e f g h =
      let same = deploy_kubernetes next ref target s e f g in
      rw same (
        with_access-Success laws target target.spec.access
          (record s { calls = Call.get_target ref ∷ s.calls }) refl (rw same at h))
