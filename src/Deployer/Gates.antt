-- ===== src/Deployer/Gates.antt =====
-- When a run of the deployer writes a FluxDeployer, and when it does not.
use mpas_product_controller.Base.{
  ◌≡◌, ◌≢◌, refl, ap, ◌∙◌, subst, inl, inr, String, true, List, [], ◌∷◌, Option, none, some, ◌==◌,
  eq_iff, Any, Bool-cases, Option-cases,
}
use mpas_product_controller.Kube.Errors.{Key}
use mpas_product_controller.Kube.Action.{Outcome-cases, ◌>>=◌, done}
use mpas_product_controller.Kube.Action.Maintains.{
  Maintains, Maintains-pure, Maintains-fail, Maintains-panic, Maintains-lift, Maintains-call,
  Maintains-on_error, Maintains-bind, Maintains-if,
}
use mpas_product_controller.Kube.Store.{create_or_update}
use mpas_product_controller.Kube.Objects.{ObjectLaws}
use mpas_product_controller.Api.{
  OwnerReference, Target, KubernetesAccess, ProductDeploymentPipeline, kubernetes,
}
use mpas_product_controller.Deployer.Objects.{FluxDeployer}
use mpas_product_controller.Deployer.{
  Call, Env, Deploys, own, create_kustomization, from_snapshot, with_access, hand_on, to_target,
  deploy,
}
use mpas_product_controller.Deployer.Chain.{Start}

-- The call writes a FluxDeployer.
abbrev pub IsApply : Call → Type 0
IsApply c = (d : FluxDeployer) × (c ≡ Call.apply d)

-- No call has written a FluxDeployer.
abbrev pub NoApply : Start → Type 0
NoApply s = Any IsApply s.calls → ⊥

-- Neither does the next deployer, if there is one.
abbrev pub NextNoApply : Option Deploys → Type 0
NextNoApply next =
    (n : Deploys) (obj : ProductDeploymentPipeline) → next ≡ some n → Maintains NoApply (n obj)

NoApply-target :
    (k : Key) (s : Start) → NoApply s → NoApply (record s { calls = Call.get_target k ∷ s.calls })
NoApply-target k s p (inl (d, e)) = absurd (cc)
NoApply-target k s p (inr h) = p h

NoApply-snapshot :
    (k : Key) (s : Start) → NoApply s → NoApply (record s { calls = Call.get_snapshot k ∷ s.calls })
NoApply-snapshot k s p (inl (d, e)) = absurd (cc)
NoApply-snapshot k s p (inr h) = p h

module _ (env : Env) (obj : ProductDeploymentPipeline) where
  -- What a run that writes a FluxDeployer has found: the selected target, of type kubernetes, with
  -- an access that is read, and a snapshot with one owner.
  pub record IsOpen (calls : List Call) : Type 0 where
    pub ref : Key
    pub target : Target
    pub raw : String
    pub access : KubernetesAccess
    pub snapshot : Key
    pub owner : OwnerReference
    pub selected : obj.status.selected_target_ref ≡ some ref
    pub found : env.get_target calls ref ≡ done target
    pub is_kubernetes : target.spec.type ≡ kubernetes
    pub has_access : target.spec.access ≡ some raw
    pub parsed : env.parse_access raw ≡ done access
    pub named : obj.status.snapshot_ref ≡ some snapshot
    pub owned : env.get_snapshot (Call.get_target ref ∷ calls) snapshot ≡ done (owner ∷ [])

  -- The same from the access on.
  abbrev Deployed : Option String → List Call → Type 0
  Deployed r calls =
      (raw : String) × (access : KubernetesAccess) × (snapshot : Key) × (owner : OwnerReference)
      × (r ≡ some raw)
      × (env.parse_access raw ≡ done access)
      × (obj.status.snapshot_ref ≡ some snapshot)
      × (env.get_snapshot calls snapshot ≡ done (owner ∷ []))

  create_one :
      (access : KubernetesAccess) (owners : List OwnerReference) (s : Start)
      → NoApply s
      → Any IsApply (create_kustomization env obj access owners s).1.calls
      → (owner : OwnerReference) × (owners ≡ owner ∷ [])
  unfolding create_kustomization ◌>>=◌
  create_one access [] s p h = absurd (p h)
  create_one access (owner ∷ []) s p h = (owner, refl)
  create_one access (a ∷ b ∷ bs) s p h = absurd (p h)

  from_snapshot_gated :
      (access : KubernetesAccess) (r : Option Key) (s : Start)
      → NoApply s
      → Any IsApply (from_snapshot env obj access r s).1.calls
      → (snapshot : Key) × (owner : OwnerReference) × (r ≡ some snapshot)
        × (env.get_snapshot s.calls snapshot ≡ done (owner ∷ []))
  unfolding from_snapshot ◌>>=◌
  from_snapshot_gated access none s p h = absurd (p h)
  from_snapshot_gated access (some ref) s p h =
      let s' : Start = record s { calls = Call.get_snapshot ref ∷ s.calls } in
      let q = NoApply-snapshot ref s p in
      elim (Outcome-cases (env.get_snapshot s.calls ref)) [
        | inl (owners, e) ↦
            let (owner, f) = create_one access owners s' q (rw e at h) in
            (ref, owner, refl, rw f at e)
        | inr (inl (x, e)) ↦ absurd (q (rw e at h))
        | inr (inr e) ↦ absurd (q (rw e at h))
      ]

  with_access_gated :
      (r : Option String) (s : Start)
      → NoApply s
      → Any IsApply (with_access env obj r s).1.calls
      → Deployed r s.calls
  unfolding with_access ◌>>=◌
  with_access_gated none s p h = absurd (p h)
  with_access_gated (some raw) s p h = elim (Outcome-cases (env.parse_access raw)) [
    | inl (access, e) ↦
        let (snapshot, owner, a, b) =
          from_snapshot_gated access obj.status.snapshot_ref s p (rw e at h) in
        (raw, access, snapshot, owner, refl, e, a, b)
    | inr (inl (x, e)) ↦ absurd (p (rw e at h))
    | inr (inr e) ↦ absurd (p (rw e at h))
  ]

  hand_on-NoApply :
      (next : Option Deploys) (type : String)
      → NextNoApply next
      → (s : Start) → NoApply s
      → NoApply (hand_on env next type obj s).1
  unfolding hand_on ◌>>=◌
  hand_on-NoApply none type k s p = p
  hand_on-NoApply (some n) type k s p = (k n obj refl).kept s p

  to_target_gated :
      (next : Option Deploys) (r : Option Key) (s : Start)
      → obj.status.selected_target_ref ≡ r
      → NextNoApply next
      → NoApply s
      → Any IsApply (to_target env next obj r s).1.calls
      → IsOpen s.calls
  unfolding to_target ◌>>=◌
  to_target_gated next none s e k p h = absurd (p h)
  to_target_gated next (some ref) s e k p h =
      let s' : Start = record s { calls = Call.get_target ref ∷ s.calls } in
      let q = NoApply-target ref s p in
      elim (Outcome-cases (env.get_target s.calls ref)) [
        | inl (target, f) ↦ elim (Bool-cases (target.spec.type == kubernetes)) [
          | inl is ↦
              let (raw, access, snapshot, owner, a, b, c, d) =
                with_access_gated target.spec.access s' q (rw (f, is) at h) in
              record {
                ref = ref;
                target = target;
                raw = raw;
                access = access;
                snapshot = snapshot;
                owner = owner;
                selected = e;
                found = f;
                is_kubernetes = (eq_iff target.spec.type kubernetes).0 is;
                has_access = a;
                parsed = b;
                named = c;
                owned = d;
              }
          | inr is_not ↦ absurd (hand_on-NoApply next target.spec.type k s' q (rw (f, is_not) at h))
        ]
        | inr (inl (x, f)) ↦ absurd (q (rw f at h))
        | inr (inr f) ↦ absurd (q (rw f at h))
      ]

  -- Where no FluxDeployer was written before, and the next deployer, if there is one, writes none: a
  -- run of Deploy that writes one, on any pipeline, has found the selected target, which is of type
  -- kubernetes and has an access that is read, and the pipeline's snapshot, which has one owner.
  pub deploy_gated :
      (next : Option Deploys) (s : Start)
      → NextNoApply next
      → NoApply s
      → Any IsApply (deploy env next obj s).1.calls
      → IsOpen s.calls
  unfolding deploy
  deploy_gated next s k p h = to_target_gated next obj.status.selected_target_ref s refl k p h

module _ (env : Env) (laws : ObjectLaws env.flux_deployers (λ t. t.meta)) where
  -- The cluster has every FluxDeployer that it is asked for.
  abbrev pub HasAll : Type 0
  HasAll = (calls : List Call) (d : FluxDeployer) → env.flux_deployers.find calls d ≢ done none

  module _ (all : HasAll) (obj : ProductDeploymentPipeline) where
    own_created : (d : FluxDeployer) → d.meta.created ≡ true → own env obj d ≡ done d
    unfolding own
    own_created d c = rw c refl

    left_alone :
        (desired : FluxDeployer) (s : Start)
        → (create_or_update env.flux_deployers Call.apply (own env obj) desired s).1.calls ≡ s.calls
    unfolding create_or_update ◌>>=◌
    left_alone desired s = elim (Outcome-cases (env.flux_deployers.find s.calls desired)) [
      | inl (existing, e) ↦ elim (Option-cases existing) [
        | inl n ↦ absurd (all s.calls desired (e ∙ ap done n))
        | inr (d, n) ↦
            let f = e ∙ ap done n in
            rw (f, own_created d (laws.found-created s.calls desired d f), laws.same_refl d) refl
      ]
      | inr (inl (x, e)) ↦ rw e refl
      | inr (inr e) ↦ rw e refl
    ]

    create_kustomization-NoApply :
        (access : KubernetesAccess) (owners : List OwnerReference)
        → Maintains NoApply (create_kustomization env obj access owners)
    unfolding create_kustomization
    create_kustomization-NoApply access [] = Maintains-fail _
    create_kustomization-NoApply access (owner ∷ []) =
        Maintains-bind _ _
          (Maintains-on_error _ _
            (record { kept = λ s p h. p (subst (Any IsApply) (left_alone _ s) h) })
            (λ e. Maintains-fail _))
          (λ _. Maintains-pure tt)
    create_kustomization-NoApply access (a ∷ b ∷ bs) = Maintains-fail _

    from_snapshot-NoApply :
        (access : KubernetesAccess) (r : Option Key)
        → Maintains NoApply (from_snapshot env obj access r)
    unfolding from_snapshot
    from_snapshot-NoApply access none = Maintains-panic
    from_snapshot-NoApply access (some ref) =
        Maintains-bind _ _
          (Maintains-on_error _ _
            (Maintains-call (Call.get_snapshot ref) (λ calls. env.get_snapshot calls ref)
              (NoApply-snapshot ref))
            (λ e. Maintains-fail _))
          (create_kustomization-NoApply access)

    with_access-NoApply : (r : Option String) → Maintains NoApply (with_access env obj r)
    unfolding with_access
    with_access-NoApply none = Maintains-fail _
    with_access-NoApply (some raw) =
        Maintains-bind _ _
          (Maintains-on_error _ _ (Maintains-lift (env.parse_access raw)) (λ e. Maintains-fail _))
          (λ access. from_snapshot-NoApply access obj.status.snapshot_ref)

    to_target-NoApply :
        (next : Option Deploys) (r : Option Key)
        → NextNoApply next
        → Maintains NoApply (to_target env next obj r)
    unfolding to_target
    to_target-NoApply next none k = Maintains-fail _
    to_target-NoApply next (some ref) k =
        Maintains-bind _ _
          (Maintains-on_error _ _
            (Maintains-call (Call.get_target ref) (λ calls. env.get_target calls ref)
              (NoApply-target ref))
            (λ e. Maintains-fail _))
          (λ target.
            Maintains-if (target.spec.type == kubernetes) (with_access env obj target.spec.access)
              (hand_on env next target.spec.type obj) (λ _. with_access-NoApply target.spec.access)
              (λ _. record { kept = hand_on-NoApply env obj next target.spec.type k }))

    -- Where the laws of found objects hold, the cluster has each FluxDeployer that it is asked for,
    -- and the next deployer, if there is one, writes none: a run of Deploy before which none was
    -- written writes none either, however it ends, and whatever the access of the target and the
    -- owner of the snapshot are by now.
    pub deploy_existing :
        (next : Option Deploys) (s : Start)
        → NextNoApply next
        → NoApply s
        → NoApply (deploy env next obj s).1
    unfolding deploy
    deploy_existing next s k p = (to_target-NoApply next obj.status.selected_target_ref k).kept s p
