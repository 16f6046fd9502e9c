-- ===== src/Deployment/Lost.antt =====
-- What a failed read of the product deployment does.
use mpas_product_controller.Base.{◌≡◌, refl, false, ◌∷◌}
use mpas_product_controller.Kube.Errors.{Error, Key}
use mpas_product_controller.Kube.Action.{Session, fails, ◌>>=◌}
use mpas_product_controller.Api.{ProductDeployment}
use mpas_product_controller.Deployment.Env.{Call, Env}
use mpas_product_controller.Deployment.Reconcile.{process, after_get, reconcile}

module _ (env : Env) where
  -- Where Get fails with an error other than not found, Reconcile does not return it: it processes
  -- the object that it was started with, the zero value, as if it had been read.
  pub reconcile_lost :
      (k : Key) (e : Error) (s : Session Call ProductDeployment)
      → env.get_deployment s.calls k ≡ fails e
      → env.is_not_found e ≡ false
      → reconcile env k s ≡ process env (record s { calls = Call.get_deployment k ∷ s.calls })
  unfolding reconcile after_get ◌>>=◌
  reconcile_lost k e s h n = rw (h, n) refl
