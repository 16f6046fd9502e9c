-- ===== src/Kube/Errors.antt =====
-- Go's `error` values as the controllers build them, and the keys and results of controller-runtime.
use mpas_product_controller.Base.{ℕ, String, Bool, true, false, ◌||◌, ◌<>◌}

-- `external` is an error of a called library, `text` is fmt.Errorf or errors.New with no error
-- inside, `wrap` is fmt.Errorf with `: %w` at its end, `join` is errors.Join,
-- `aggregate` is kerrors.NewAggregate, and `unschedulable` is the sentinel errUnschedulable.
pub data Error : Type 0 where
  external text : String → Error
  wrap : String → Error → Error
  join aggregate : Error → Error → Error
  unschedulable : Error

-- The method Error().
unfoldable pub error_text : Error → String
error_text (external s) = s
error_text (text s) = s
error_text (wrap s e) = s <> ": " <> error_text e
error_text (join e f) = error_text e <> "\n" <> error_text f
error_text (aggregate e f) = "[" <> error_text e <> ", " <> error_text f <> "]"
error_text unschedulable = "pipeline cannot be scheduled as it doesn't define any target scopes"

-- `errors.Is(err, errUnschedulable)`, which follows every wrapped error.
unfoldable pub is_unschedulable : Error → Bool
is_unschedulable (external s) = false
is_unschedulable (text s) = false
is_unschedulable (wrap s e) = is_unschedulable e
is_unschedulable (join e f) = is_unschedulable e || is_unschedulable f
is_unschedulable (aggregate e f) = is_unschedulable e || is_unschedulable f
is_unschedulable unschedulable = true

-- types.NamespacedName, and the fields of meta.NamespacedObjectReference.
pub record Key : Type 0 where
  pub name : String
  pub namespace : String

-- ctrl.Result; durations are nanoseconds.
pub record Result : Type 0 where
  pub requeue : Bool
  pub requeue_after : ℕ

-- `ctrl.Result{}`
abbrev pub no_requeue : Result
no_requeue = record { requeue = false; requeue_after = 0 }

-- `ctrl.Result{RequeueAfter: d}`
abbrev pub after : ℕ → Result
after d = record { requeue = false; requeue_after = d }

-- time.Second
abbrev pub second : ℕ
second = 1_000_000_000
