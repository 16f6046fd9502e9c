-- ===== src/Pipeline/Tests.antt =====
-- A pipeline controller, tests and witnesses.
use mpas_product_controller.Base.{
  ◌≡◌, refl, Bool, true, false, ◌&&◌, [], Option, some, none, eq_iff, arith, ◌==◌, if◌then◌else◌,
}
use mpas_product_controller.Kube.Action.{Session, ◌>>=◌, done, panics}
use mpas_product_controller.Kube.Store.{create_or_update}
use mpas_product_controller.Kube.Sample.{empty_store, sample, sample_laws}
use mpas_product_controller.Api.{ProductDeploymentPipeline}
use mpas_product_controller.Fixtures.{pipeline, resource}
use mpas_product_controller.Pipeline.Objects.{Mutation, named, component_resource}
use mpas_product_controller.Pipeline.Env.{Call, Env}
use mpas_product_controller.Pipeline.Localization.{localize, create_or_update_localization}
use mpas_product_controller.Pipeline.Configuration.{
  configuration_spec, config_map_source, configure, refresh, create_or_update_configuration,
}
use mpas_product_controller.Pipeline.Reconcile.{progress}
use mpas_product_controller.Pipeline.Settled.{Settles, shown, refresh_lem, progress-Settles}
use mpas_product_controller.Pipeline.Pointers.{configuration_panics, progress_panics}

abbrev full : ProductDeploymentPipeline
full = record pipeline {
  spec = record pipeline.spec {
    localization = resource "localization";
    configuration = record { rules = resource "rules" };
    resource = resource "manifests";
    config_map_ref = "values";
  };
}

-- The configuration that the cluster has, made when there was no localization.
abbrev configured : Mutation
configured = record {
  meta = record (named "-configuration" full) { created = true };
  spec = configuration_spec full none;
  snapshot_name = "snap";
}

-- The configuration that was made with a localization.
abbrev localized : Mutation
localized = record configured {
  spec = configuration_spec full (some configured);
  snapshot_name = "new";
}

-- The cluster's configuration is `configured` if `exists` says so, else `localized`.
abbrev env : Bool → Env
env exists = record {
  conditions = sample;
  is_not_found = λ e. false;
  get_pipeline = λ calls k. done full;
  get_owner = λ calls k. done tt;
  set_owner = λ o m. done m;
  localizations = empty_store;
  configurations = record {
    find = λ calls m. done (some (if exists then configured else localized));
    same = λ a b. true;
    write = λ calls m. done tt;
  };
  update_status = λ calls p. done tt;
}

abbrev start : ProductDeploymentPipeline → Session Call ProductDeploymentPipeline
start obj = record { obj = obj; calls = [] }

configuration_panics_example :
    (create_or_update_configuration (env true) full (some configured) (start full)).0 ≡ panics
configuration_panics_example =
    configuration_panics (env true) full configured configured (resource "manifests") (start full)
      (λ e. ground (arith, eq_iff "rules" "")) refl refl refl

progress_panics_example : (progress (env true) (start pipeline)).0 ≡ panics
progress_panics_example = progress_panics (env true) (start pipeline) refl refl

refresh_example :
    refresh (configuration_spec full none) (configuration_spec full none)
    ≡ done (
        if "manifests" == full.spec.resource.name
          && "rules" == full.spec.configuration.rules.name
          && "values" == full.spec.config_map_ref
        then configuration_spec full none
        else configuration_spec full none)
refresh_example =
    refresh_lem full (configuration_spec full none) (resource "manifests") (resource "rules")
      (config_map_source full)
      (refl, (component_resource full (resource "rules"), refl, refl), refl)

progress-Settles_example :
    (localization : Option Mutation) × ((create_or_update_localization
        (env false)
        full
        (shown (env false) sample_laws (start full))).0
      ≡ done localization)
    × Settles
        (env false)
        sample_laws
        full
        localization
        (create_or_update_localization
          (env false)
          full
          (shown (env false) sample_laws (start full))).1
        (progress (env false) (start full)).1.obj
unfolding progress create_or_update_localization create_or_update_configuration create_or_update
    localize configure ◌>>=◌
progress-Settles_example = progress-Settles (env false) sample_laws (start full) refl
