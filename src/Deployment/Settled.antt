-- ===== src/Deployment/Settled.antt =====
-- What the rest of `reconcile` has done, from the list of the pipelines on, where it succeeds.
use mpas_product_controller.Base.{String, Bool, List, ◌∷◌, keep}
use mpas_product_controller.Kube.Errors.{Key}
use mpas_product_controller.Kube.Action.{Session}
use mpas_product_controller.Api.{ProductDeployment, ProductDeploymentPipeline}
use mpas_product_controller.Deployment.Env.{Call, Env, set_status}
use mpas_product_controller.Deployment.Reconcile.{not_ready, names}

module _ (env : Env) (obj : ProductDeployment) (config_name : String) (updated : Bool) where
  abbrev pub list_key : Key
  list_key = record { name = obj.meta.name; namespace = obj.meta.namespace }

  -- The state in which the loop starts.
  abbrev started :
      List ProductDeploymentPipeline
      → Session Call ProductDeployment
      → Session Call ProductDeployment
  started existing s = record s {
    obj =
        set_status (λ t. record t { active_pipelines = names (keep (not_ready env) existing) })
          s.obj;
    calls = Call.list_pipelines list_key ∷ s.calls;
  }
