-- ===== src/Pipeline/Pointers.antt =====
-- Where the pipeline controller dereferences a nil pointer.
use mpas_product_controller.Base.{◌≡◌, ap, ◌≢◌, true, Option, none, some, eq_iff, eq_false}
use mpas_product_controller.Kube.Action.{Session, ◌>>=◌, done, panics}
use mpas_product_controller.Kube.Store.{create_or_update}
use mpas_product_controller.Api.{ResourceReference, ProductDeploymentPipeline}
use mpas_product_controller.Pipeline.Objects.{Mutation, MutationSpec, named, zero_spec}
use mpas_product_controller.Pipeline.Env.{Call, Env}
use mpas_product_controller.Pipeline.Localization.{create_or_update_localization}
use mpas_product_controller.Pipeline.Configuration.{
  configuration_spec, renamed, configure, create_or_update_configuration,
}
use mpas_product_controller.Pipeline.Reconcile.{progress}

renamed_panics :
    (x : Option ResourceReference) (r : ResourceReference) (spec old : MutationSpec)
    → x ≡ some r
    → renamed x none spec old ≡ panics
unfolding renamed
renamed_panics x r spec old e = ap (λ y. renamed y none spec old) e

-- The object that CreateOrUpdate starts from.
abbrev pub blank : ProductDeploymentPipeline → Mutation
blank obj = record { meta = named "-configuration" obj; spec = zero_spec; snapshot_name = "" }

module _ (env : Env) where
  refresh_panics :
      (obj : ProductDeploymentPipeline) (localization m : Mutation) (r : ResourceReference)
      → m.meta.created ≡ true
      → m.spec.source_ref.resource_ref ≡ some r
      → configure env obj (configuration_spec obj (some localization)) m ≡ panics
  unfolding configure
  refresh_panics obj l m r c e = rw (
    c,
    renamed_panics m.spec.source_ref.resource_ref r (configuration_spec obj (some l)) m.spec e,
  )

  -- Where a pipeline with rules has a localization and its configuration in the cluster still names
  -- a resource as its source, the update of the configuration panics: the callback dereferences the
  -- resource of the wanted source, which is missing.
  pub configuration_panics :
      (obj : ProductDeploymentPipeline) (localization m : Mutation) (r : ResourceReference)
      (s : Session Call ProductDeploymentPipeline)
      → obj.spec.configuration.rules.name ≢ ""
      → env.configurations.find s.calls (blank obj) ≡ done (some m)
      → m.meta.created ≡ true
      → m.spec.source_ref.resource_ref ≡ some r
      → (create_or_update_configuration env obj (some localization) s).0 ≡ panics
  unfolding create_or_update_configuration create_or_update ◌>>=◌
  configuration_panics obj l m r s ne b c e =
      rw (eq_false obj.spec.configuration.rules.name "" ne, b, refresh_panics obj l m r c e)

  -- The run on a pipeline that names neither a localization nor rules panics.
  pub progress_panics :
      (s : Session Call ProductDeploymentPipeline)
      → s.obj.spec.localization.name ≡ ""
      → s.obj.spec.configuration.rules.name ≡ ""
      → (progress env s).0 ≡ panics
  unfolding progress create_or_update_localization create_or_update_configuration ◌>>=◌
  progress_panics s l c = rw ((eq_iff _ _).1 l, (eq_iff _ _).1 c)
