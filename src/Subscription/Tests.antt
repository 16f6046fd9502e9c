-- ===== src/Subscription/Tests.antt =====
-- A witness for the predicate.
use mpas_product_controller.Base.{◌≡◌, ◌↔◌, true, some}
use mpas_product_controller.Subscription.{subscription, update}
use mpas_product_controller.Subscription.Trigger.{HasNewVersion, update_iff}

update_iff_example :
    (update (some (subscription "v1.0.0")) (some (subscription "v1.1.0")) ≡ true)
    ↔ HasNewVersion (some (subscription "v1.0.0")) (some (subscription "v1.1.0"))
update_iff_example = update_iff (some (subscription "v1.0.0")) (some (subscription "v1.1.0"))
