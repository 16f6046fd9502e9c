-- ===== src/Targeting/Status.antt =====
-- The method setStatus.
use mpas_product_controller.Base.{
  ℕ, String, Bool, true, false, not, ◌&&◌, List, Option, none, some, if◌then◌else◌, nat_eq,
}
use mpas_product_controller.Kube.Errors.{Result}
use mpas_product_controller.Kube.Action.{◌>>=◌, ◌>>◌, pure, index, read, tell}
use mpas_product_controller.Kube.Conditions.{
  Condition, has_status, holds, fails_, ready_condition, reconciling_condition, stalled_condition,
  progressing_with_retry_reason, succeeded_reason,
}
use mpas_product_controller.Targeting.Env.{Call, Env, Run, on_conditions}

abbrev is_none : Option String → Bool
is_none none = true
is_none (some m) = false

abbrev message_of : Option Condition → Option String
message_of none = some ""
message_of (some c) = some c.message

module _ (env : Env) (interval : ℕ) where
  open env.conditions use {get, put, delete, is_ready, is_stalled, is_reconciling, mark_true}

  -- A stalled object is not reconciling.
  abbrev unstick : List Condition → List Condition
  unstick cs =
      if has_status holds (get stalled_condition cs) then delete reconciling_condition cs else cs

  abbrev pub is_success : Result → Bool
  is_success result = nat_eq result.requeue_after interval && not result.requeue

  abbrev pub settle : Result → List Condition → List Condition
  settle result cs = if is_success result then delete reconciling_condition cs else cs

  -- The error that the method sets. The one that it is given is nil, since `defer` has evaluated
  -- it at the start of the function.
  abbrev pub error_of : Result → List Condition → Option String
  error_of result cs =
      if is_success result && (has_status fails_ (get ready_condition cs) && not (is_stalled cs))
      then message_of (get ready_condition cs)
      else none

  unfoldable pub mark_retry : Run (Unit {0})
  mark_retry = do
    obj ← read
    if is_reconciling obj.status.conditions
        then (do
          reconciling ← index (get reconciling_condition obj.status.conditions)
          on_conditions (put (record reconciling { reason = progressing_with_retry_reason })))
        else pure tt

  abbrev finish : Result → Option String → List Condition → List Condition
  finish result err cs =
      if not (is_reconciling cs)
        && (not (is_stalled cs) && (is_none err && nat_eq result.requeue_after interval))
      then mark_true ready_condition succeeded_reason "Target is ready" cs
      else cs

  -- The event, with the fields of a condition that is read as it is.
  unfoldable pub emit_if : Bool → String → Run (Unit {0})
  emit_if changed type = do
    obj ← read
    if changed
        then (do
          ready ← index (get ready_condition obj.status.conditions)
          tell (Call.event type ready.reason ready.message))
        else pure tt

  unfoldable pub emit_events : List Condition → Run (Unit {0})
  unfolding emit_if
  emit_events old = do
    obj ← read
    emit_if (not (is_ready old) && is_ready obj.status.conditions) "Normal"
    emit_if (is_ready old && not (is_ready obj.status.conditions)) "Warning"

  -- The result that it leaves; `old` are the conditions before.
  unfoldable pub set_status : List Condition → Result → Run Result
  unfolding mark_retry emit_events
  set_status old result = do
    on_conditions unstick
    on_conditions (settle result)
    settled ← read
    mark_retry
    on_conditions (finish result (error_of result settled.status.conditions))
    emit_events old
    pure (
        if nat_eq result.requeue_after interval
        then record result { requeue_after = env.jitter result.requeue_after }
        else result)
