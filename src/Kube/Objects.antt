-- ===== src/Kube/Objects.antt =====
-- What the API server answers about objects with metadata, as CreateOrUpdate relies on it.
use mpas_product_controller.Base.{◌≡◌, true, some, List}
use mpas_product_controller.Kube.Action.{done}
use mpas_product_controller.Kube.Store.{Store}
use mpas_product_controller.Api.{ObjectMeta}

-- An object of the cluster has a creation time, and the name and namespace that it was asked for by;
-- DeepEqual holds of an object and itself.
pub record ObjectLaws {C T : Type 0} (store : Store C T) (meta : T → ObjectMeta) : Type 0 where
  pub found-created :
      (calls : List C) (d t : T) → store.find calls d ≡ done (some t) → (meta t).created ≡ true
  pub found-named :
      (calls : List C) (d t : T)
      → store.find calls d ≡ done (some t)
      → ((meta t).name ≡ (meta d).name) × ((meta t).namespace ≡ (meta d).namespace)
  pub same_refl : (t : T) → store.same t t ≡ true
