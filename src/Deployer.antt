-- ===== src/Deployer.antt =====
-- The deployer of Kubernetes targets: pkg/deployers/deployer.go and
-- pkg/deployers/kubernetes/kubernetes.go.
pub mod Objects
pub mod Chain
pub mod Gates
mod Tests
use mpas_product_controller.Base.{
  ℕ, String, Bool, true, false, not, List, [], ◌∷◌, Option, none, some, ◌==◌, ◌<>◌, if◌then◌else◌,
  length, decimal,
}
use mpas_product_controller.Kube.Errors.{Error, Key, text, wrap}
use mpas_product_controller.Kube.Action.{
  Action, Outcome, mapped, Session, ◌>>=◌, ◌>>◌, pure, fail, panic, lift, on_error, call,
}
use mpas_product_controller.Kube.Store.{Store, create_or_update}
use mpas_product_controller.Api.{
  ObjectMeta, OwnerReference, Target, TargetType, KubernetesAccess, ProductDeploymentPipeline,
  kubernetes,
}
use Objects.{FluxDeployer, kustomization}

pub data Call : Type 0 where
  get_target get_snapshot : Key → Call
  apply : FluxDeployer → Call

-- `get_snapshot` answers with the owner references, `parse_access` is yaml.Unmarshal, and
-- `set_owner` is controllerutil.SetOwnerReference on the metadata of the owner and the object.
pub record Env : Type 0 where
  pub get_target : List Call → Key → Outcome Target
  pub get_snapshot : List Call → Key → Outcome (List OwnerReference)
  pub parse_access : String → Outcome KubernetesAccess
  pub set_owner : ObjectMeta → ObjectMeta → Outcome ObjectMeta
  pub flux_deployers : Store Call FluxDeployer

abbrev pub Run : Type 0 → Type 0
Run = Action (Session Call (Unit {0}))

-- The interface Deployer.
abbrev pub Deploys : Type 0
Deploys = ProductDeploymentPipeline → Run (Unit {0})

module _ (env : Env) where
  -- The callback of CreateOrUpdate.
  unfoldable pub own : ProductDeploymentPipeline → FluxDeployer → Outcome FluxDeployer
  own obj d =
      if d.meta.created
      then Outcome.done d
      else mapped (λ m. record d { meta = m }) (wrap "failed to set owner to kustomization object")
          (env.set_owner obj.meta d.meta)

  -- From the snapshot's owners to the end.
  unfoldable pub create_kustomization :
      ProductDeploymentPipeline → KubernetesAccess → List OwnerReference → Run (Unit {0})
  unfolding own
  create_kustomization obj access (owner ∷ []) = do
    on_error
        (create_or_update env.flux_deployers Call.apply (own obj) (kustomization obj access owner))
        (λ e. fail (wrap "failed to create kustomization" e))
    pure tt
  create_kustomization obj access owners =
      fail (text ("expected exactly one owner for snapshot but got " <> decimal (length owners)))

  -- `obj.Status.SnapshotRef.Name` dereferences a pointer that nothing has tested.
  unfoldable pub from_snapshot :
      ProductDeploymentPipeline → KubernetesAccess → Option Key → Run (Unit {0})
  unfolding create_kustomization
  from_snapshot obj access none = panic
  from_snapshot obj access (some ref) = do
    owners ←
        on_error (call (Call.get_snapshot ref) (λ calls. env.get_snapshot calls ref))
          (λ e. fail (wrap "failed to find snapshot" e))
    create_kustomization obj access owners

  unfoldable pub with_access : ProductDeploymentPipeline → Option String → Run (Unit {0})
  unfolding from_snapshot
  with_access obj none = fail (text "access needs to be defined for the kubernetes target type")
  with_access obj (some raw) = do
    access ←
        on_error (lift (env.parse_access raw))
          (λ e. fail (wrap "failed to parse Kubernetes access spec" e))
    from_snapshot obj access obj.status.snapshot_ref

  -- `d.next`; `none` is nil.
  unfoldable pub hand_on : Option Deploys → TargetType → Deploys
  hand_on none type obj =
      fail (text ("cannot deploy target type " <> type <> " and no next handler is configured"))
  hand_on (some next) type obj = next obj

  unfoldable pub to_target :
      Option Deploys → ProductDeploymentPipeline → Option Key → Run (Unit {0})
  unfolding with_access hand_on
  to_target next obj none = fail (text "pipeline has no selected target")
  to_target next obj (some ref) = do
    target ←
        on_error (call (Call.get_target ref) (λ calls. env.get_target calls ref))
          (λ e. fail (wrap "failed to find referenced target object" e))
    if target.spec.type == kubernetes
        then with_access obj target.spec.access
        else hand_on next target.spec.type obj

  -- The method Deploy.
  unfoldable pub deploy : Option Deploys → Deploys
  unfolding to_target
  deploy next obj = to_target next obj obj.status.selected_target_ref
