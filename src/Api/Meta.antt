-- ===== src/Api/Meta.antt =====
-- The metadata that all objects carry, reduced to the fields that the controllers read or write.
use mpas_product_controller.Base.{ℕ, String, Bool, List}

-- metav1.OwnerReference; `controller` tells SetControllerReference from SetOwnerReference.
pub record OwnerReference : Type 0 where
  pub api_version : String
  pub kind : String
  pub name : String
  pub controller : Bool

-- metav1.ObjectMeta. `created` says that the creation timestamp is not zero, `deleting` that the
-- deletion timestamp is not.
pub record ObjectMeta : Type 0 where
  pub name : String
  pub namespace : String
  pub labels : List (String × String)
  pub annotations : List (String × String)
  pub owners : List OwnerReference
  pub generation : ℕ
  pub created : Bool
  pub deleting : Bool

-- metav1.LabelSelector
pub record LabelSelector : Type 0 where
  pub match_labels : List (String × String)
  pub match_expressions : List (String × String × List String)

-- What the controllers read of ocmv1alpha1.Signature.
pub record Signature : Type 0 where
  pub name : String
  pub secret_ref : String
  pub value : String

-- replicationv1.Component
pub record Component : Type 0 where
  pub name : String
  pub version : String
  pub registry_url : String

-- `Name` and `Version` are those of the inlined ElementMeta.
pub record ResourceReference : Type 0 where
  pub name : String
  pub version : String
  pub reference_path : List (List (String × String))
