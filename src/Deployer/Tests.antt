-- ===== src/Deployer/Tests.antt =====
-- A deployer with one Kubernetes target, tests and witnesses.
use mpas_product_controller.Base.{
  refl, inl, true, [], ◌∷◌, Option, some, none, arith, ◌==◌, if◌then◌else◌,
}
use mpas_product_controller.Kube.Errors.{Key}
use mpas_product_controller.Kube.Action.{◌>>=◌, done}
use mpas_product_controller.Kube.Store.{create_or_update}
use mpas_product_controller.Kube.Objects.{ObjectLaws}
use mpas_product_controller.Api.{Target, KubernetesAccess, ProductDeploymentPipeline}
use mpas_product_controller.Fixtures.{target, pipeline, owner}
use mpas_product_controller.Deployer.Objects.{FluxDeployer, kustomization}
use mpas_product_controller.Deployer.{Call, Env, own, deploy}
use mpas_product_controller.Deployer.Chain.{Start, Success, deploy-Success}
use mpas_product_controller.Deployer.Gates.{
  NoApply, NextNoApply, IsOpen, deploy_gated, deploy_existing,
}

abbrev access : KubernetesAccess
access = record { secret_ref = none; target_namespace = "apps" }

abbrev targeted : ProductDeploymentPipeline
targeted = record pipeline {
  status = record pipeline.status {
    selected_target_ref = some (record { name = "one"; namespace = "project" });
  };
}

abbrev accessible : Target
accessible = record (target "one" "kubernetes") {
  spec = record (target "one" "kubernetes").spec { access = some "raw" };
}

-- The FluxDeployer of an earlier run, for another namespace.
abbrev existing : FluxDeployer
existing = record {
  meta = record pipeline.meta { name = "web-kustomization"; created = true };
  source_kind = "Localization";
  source_name = "old";
  source_namespace = "project";
  prune = true;
  target_namespace = "old";
  kube_config = none;
}

-- What the cluster holds of the FluxDeployer that is looked for.
abbrev env : (FluxDeployer → Option FluxDeployer) → Env
env held = record {
  get_target = λ calls k. if k.name == "one" then done accessible else done (target "host" "ssh");
  get_snapshot = λ calls k. done (owner "Localization" "loc" ∷ []);
  parse_access = λ raw. done access;
  set_owner = λ o m. done m;
  flux_deployers = record {
    find = λ calls d. done (held d);
    same = λ a b. true;
    write = λ calls d. done tt;
  };
}

abbrev empty : Env
empty = env (λ d. none)

-- The object that is asked for, as it was made earlier, for another namespace.
abbrev full : Env
full = env (λ d. some (record existing { meta = record d.meta { created = true } }))

empty-ObjectLaws : ObjectLaws empty.flux_deployers (λ d. d.meta)
empty-ObjectLaws = record {
  found-created = λ calls d t e. absurd (ground arith);
  found-named = λ calls d t e. absurd (ground arith);
  same_refl = λ t. refl;
}

full-ObjectLaws : ObjectLaws full.flux_deployers (λ d. d.meta)
full-ObjectLaws = record {
  found-created = λ calls d t e. ground arith;
  found-named = λ calls d t e. (ground arith, ground arith);
  same_refl = λ t. refl;
}

abbrev start : Start
start = record { obj = tt; calls = [] }

abbrev key : Key
key = record { name = "one"; namespace = "project" }

-- With no next deployer.
next_none : NextNoApply none
next_none n obj e = absurd (ground arith)

deploy-Success_example :
    Success empty targeted accessible
      (Call.get_target key ∷ [])
      (deploy empty none targeted start).1.calls
unfolding deploy own create_or_update kustomization ◌>>=◌
deploy-Success_example =
    deploy-Success empty targeted none key accessible start empty-ObjectLaws refl refl refl refl

deploy_gated_example : IsOpen empty targeted []
unfolding deploy own create_or_update kustomization ◌>>=◌
deploy_gated_example = deploy_gated empty targeted none start next_none (λ h. h) (inl (_, refl))

deploy_existing_example : NoApply (deploy full none targeted start).1
deploy_existing_example =
    deploy_existing full full-ObjectLaws (λ calls d e. absurd (ground arith)) targeted none start
      next_none (λ h. h)
