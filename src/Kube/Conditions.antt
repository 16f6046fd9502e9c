-- ===== src/Kube/Conditions.antt =====
-- Status conditions: metav1.Condition, and what the controllers use of the packages conditions,
-- reconcile (fluxcd) and status (ocm-controller), as an interface with the documented behaviour.
use mpas_product_controller.Base.{◌≡◌, ◌≢◌, String, Bool, true, false, List, Option, none, some}

pub data Status : Type 0 where
  holds fails_ unknown : Status

pub record Condition : Type 0 where
  pub type : String
  pub status : Status
  pub reason : String
  pub message : String

abbrev pub ready_condition : String
ready_condition = "Ready"

abbrev pub reconciling_condition : String
reconciling_condition = "Reconciling"

abbrev pub stalled_condition : String
stalled_condition = "Stalled"

abbrev pub progressing_reason : String
progressing_reason = "Progressing"

abbrev pub progressing_with_retry_reason : String
progressing_with_retry_reason = "ProgressingWithRetry"

abbrev pub succeeded_reason : String
succeeded_reason = "Succeeded"

-- The operations act on the conditions of an object. `progressive` is
-- `rreconcile.ProgressiveStatus(false, ...)`; `mark_ready` and `mark_not_ready` are those of the
-- package status, whose events are left out.
pub record ConditionLib : Type 0 where
  pub get : String → List Condition → Option Condition
  pub put : Condition → List Condition → List Condition
  pub delete : String → List Condition → List Condition
  pub is_true : String → List Condition → Bool
  pub is_ready : List Condition → Bool
  pub is_stalled : List Condition → Bool
  pub is_reconciling : List Condition → Bool
  pub mark_true : String → String → String → List Condition → List Condition
  pub mark_false : String → String → String → List Condition → List Condition
  pub mark_stalled : String → String → List Condition → List Condition
  pub progressive : String → String → List Condition → List Condition
  pub mark_ready : String → List Condition → List Condition
  pub mark_not_ready : String → String → List Condition → List Condition

abbrev pub has_status : Status → Option Condition → Bool
has_status s none = false
has_status holds (some c) = elim c.status [ holds ↦ true | _ ↦ false ]
has_status fails_ (some c) = elim c.status [ fails_ ↦ true | _ ↦ false ]
has_status unknown (some c) = elim c.status [ unknown ↦ true | _ ↦ false ]

-- A condition with the given fields.
abbrev pub condition : String → Status → String → String → Condition
condition type status reason message = record {
  type = type;
  status = status;
  reason = reason;
  message = message;
}

-- What the controllers rely on: the documented behaviour of the packages.
pub record ConditionLaws (lib : ConditionLib) : Type 0 where
  pub get-put : (c : Condition) (cs : List Condition) → lib.get c.type (lib.put c cs) ≡ some c
  pub get-put_ne :
      (u : String) (c : Condition) (cs : List Condition)
      → u ≢ c.type
      → lib.get u (lib.put c cs) ≡ lib.get u cs
  pub get-delete : (t : String) (cs : List Condition) → lib.get t (lib.delete t cs) ≡ none
  pub get-delete_ne :
      (u t : String) (cs : List Condition) → u ≢ t → lib.get u (lib.delete t cs) ≡ lib.get u cs
  pub is_true-get :
      (t : String) (cs : List Condition) → lib.is_true t cs ≡ has_status holds (lib.get t cs)
  pub is_stalled-get :
      (cs : List Condition) → lib.is_stalled cs ≡ has_status holds (lib.get stalled_condition cs)
  pub is_reconciling-get :
      (cs : List Condition)
      → lib.is_reconciling cs ≡ has_status holds (lib.get reconciling_condition cs)
  pub mark_true-put :
      (t r m : String) (cs : List Condition)
      → lib.mark_true t r m cs ≡ lib.put (condition t holds r m) cs
  pub mark_false-put :
      (t r m : String) (cs : List Condition)
      → lib.mark_false t r m cs ≡ lib.put (condition t fails_ r m) cs
  pub get-mark_stalled :
      (r m : String) (cs : List Condition)
      → lib.get stalled_condition (lib.mark_stalled r m cs)
        ≡ some (condition stalled_condition holds r m)
  pub get-progressive :
      (r m : String) (cs : List Condition)
      → lib.get reconciling_condition (lib.progressive r m cs)
        ≡ some (condition reconciling_condition holds r m)
  pub get_ready-mark_ready :
      (m : String) (cs : List Condition)
      → lib.get ready_condition (lib.mark_ready m cs)
        ≡ some (condition ready_condition holds succeeded_reason m)
  pub get_reconciling-mark_ready :
      (m : String) (cs : List Condition)
      → lib.get reconciling_condition (lib.mark_ready m cs) ≡ none
  pub get_ready-mark_not_ready :
      (r m : String) (cs : List Condition)
      → lib.get ready_condition (lib.mark_not_ready r m cs)
        ≡ some (condition ready_condition fails_ r m)
  pub get_reconciling-mark_not_ready :
      (r m : String) (cs : List Condition)
      → lib.get reconciling_condition (lib.mark_not_ready r m cs) ≡ none
