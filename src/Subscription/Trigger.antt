-- ===== src/Subscription/Trigger.antt =====
-- When the predicate lets an update through.
use mpas_product_controller.Base.{
  ◌≡◌, refl, ◌≢◌, ◌↔◌, String, true, Option, none, some, eq_iff, arith,
}
use mpas_product_controller.Subscription.{Object, subscription, other, update}

-- Both objects are subscriptions, and the new one has applied a version that the old one had not.
abbrev pub HasNewVersion : Option Object → Option Object → Type 0
HasNewVersion old new =
    (v : String) × (w : String) × (old ≡ some (subscription v))
    × (new ≡ some (subscription w))
    × (w ≢ "")
    × (v ≢ w)

changed_sound :
    (v w : String)
    → update (some (subscription v)) (some (subscription w)) ≡ true
    → (w ≢ "") × (v ≢ w)
unfolding update
changed_sound v w h = ground (arith, eq_iff v "", eq_iff w "", eq_iff v w)

changed_complete :
    (v w : String) → w ≢ "" → v ≢ w → update (some (subscription v)) (some (subscription w)) ≡ true
unfolding update
changed_complete v w h k = ground (arith, eq_iff v "", eq_iff w "", eq_iff v w)

update_sound : (old new : Option Object) → update old new ≡ true → HasNewVersion old new
unfolding update
update_sound none new h = absurd (cc)
update_sound (some old) none h = absurd (cc)
update_sound (some other) (some new) h = absurd (cc)
update_sound (some (subscription v)) (some other) h = absurd (cc)
update_sound (some (subscription v)) (some (subscription w)) h =
    let (a, b) = changed_sound v w h in (v, w, refl, refl, a, b)

-- An update starts a reconciliation exactly when both objects are subscriptions, the new one has an
-- applied version, and this is not the old one's.
pub update_iff : (old new : Option Object) → (update old new ≡ true) ↔ HasNewVersion old new
update_iff old new =
    (update_sound old new, λ (v, w, e, f, a, b). rw (e, f) (changed_complete v w a b))
