-- ===== src/Subscription.antt =====
-- controllers/component_subscription_version_predicate.go: which updates of a subscription start a
-- reconciliation of the generators that follow it.
pub mod Trigger
mod Tests
use mpas_product_controller.Base.{
  String, Bool, true, false, ◌&&◌, Option, none, some, ◌==◌, ◌!=◌, if◌then◌else◌,
}

-- An object of an update event: a component subscription, by its status.lastAppliedVersion, or an
-- object of another kind, for which the type assertion fails.
pub data Object : Type 0 where
  subscription : String → Object
  other : Object

-- The tests on the two versions.
changed : String → String → Bool
changed old new =
    if old == "" && new != ""
    then true
    else if old != "" && new != "" && old != new
    then true
    else false

-- The method Update; `none` is a nil object.
pub update : Option Object → Option Object → Bool
unfolding changed
update none new = false
update (some old) none = false
update (some other) (some new) = false
update (some (subscription old)) (some other) = false
update (some (subscription old)) (some (subscription new)) = changed old new
