-- ===== src/Git.antt =====
-- What the controllers and the validators read of git-controller's objects.
use mpas_product_controller.Base.{ℕ, String, Bool, List}
use mpas_product_controller.Kube.Conditions.{Condition}
use mpas_product_controller.Api.{ObjectMeta}

-- gitmpasv1alpha1.Repository; `secret_name` is Spec.Credentials.SecretRef.Name.
pub record Repository : Type 0 where
  pub meta : ObjectMeta
  pub provider : String
  pub owner : String
  pub domain : String
  pub insecure : Bool
  pub secret_name : String

-- gitv1alpha1.Sync
pub record Sync : Type 0 where
  pub meta : ObjectMeta
  pub conditions : List Condition
  pub pull_request_id : ℕ
