-- ===== src/Kube/Sample.antt =====
-- A condition library that meets its laws: a list of conditions with one for each type. An empty
-- cluster.
use mpas_product_controller.Base.{
  ◌≡◌, refl, ◌∙◌, ◌≢◌, String, true, List, [], ◌∷◌, Option, none, some, ◌==◌, if◌then◌else◌, eq_iff,
  eq_refl, arith,
}
use mpas_product_controller.Kube.Action.{done}
use mpas_product_controller.Kube.Store.{Store}
use mpas_product_controller.Kube.Conditions.{
  Condition, ConditionLib, ConditionLaws, holds, fails_, condition, has_status, ready_condition,
  reconciling_condition, stalled_condition, succeeded_reason,
}

-- A cluster that has no object yet and takes every write. No two objects are compared.
abbrev pub empty_store : {C T : Type 0} → Store C T
empty_store = record { find = λ calls t. done none; same = λ a b. true; write = λ calls t. done tt }

abbrev find : String → List Condition → Option Condition
find t [] = none
find t (c ∷ cs) = let rest = find t cs in if t == c.type then some c else rest

abbrev without : String → List Condition → List Condition
without t [] = []
without t (c ∷ cs) = let rest = without t cs in if t == c.type then rest else c ∷ rest

abbrev store : Condition → List Condition → List Condition
store c cs = c ∷ without c.type cs

find-without : (t : String) (cs : List Condition) → find t (without t cs) ≡ none
find-without t [] = refl
find-without t (c ∷ cs) = ground (arith, find-without t cs)

find-without_ne : (u t : String) (cs : List Condition) → u ≢ t → find u (without t cs) ≡ find u cs
find-without_ne u t [] h = refl
find-without_ne u t (c ∷ cs) h =
    ground (arith, eq_iff u c.type, eq_iff t c.type, find-without_ne u t cs)

find-store_ne :
    (u : String) (c : Condition) (cs : List Condition)
    → u ≢ c.type
    → find u (store c cs) ≡ find u cs
find-store_ne u c cs h = ground (arith, eq_iff u c.type, find-without_ne u c.type cs)

find-store : (c : Condition) (cs : List Condition) → find c.type (store c cs) ≡ some c
find-store c cs = rw (eq_refl c.type)

abbrev pub sample : ConditionLib
sample = record {
  get = find;
  put = store;
  delete = without;
  is_true = λ t cs. has_status holds (find t cs);
  is_ready = λ cs. has_status holds (find ready_condition cs);
  is_stalled = λ cs. has_status holds (find stalled_condition cs);
  is_reconciling = λ cs. has_status holds (find reconciling_condition cs);
  mark_true = λ t r m. store (condition t holds r m);
  mark_false = λ t r m. store (condition t fails_ r m);
  mark_stalled =
      λ r m cs. store (condition stalled_condition holds r m) (without reconciling_condition cs);
  progressive =
      λ r m cs. store (condition reconciling_condition holds r m) (without stalled_condition cs);
  mark_ready = λ m cs.
      store (condition ready_condition holds succeeded_reason m) (without reconciling_condition cs);
  mark_not_ready =
      λ r m cs. store (condition ready_condition fails_ r m) (without reconciling_condition cs);
}

reconciling-ne-ready : reconciling_condition ≢ ready_condition
reconciling-ne-ready e = ground (arith, eq_iff reconciling_condition ready_condition)

reconciling_gone :
    (cs : List Condition)
    → find reconciling_condition (without ready_condition (without reconciling_condition cs)) ≡ none
reconciling_gone cs =
    find-without_ne reconciling_condition ready_condition (without reconciling_condition cs)
      reconciling-ne-ready
    ∙ find-without reconciling_condition cs

pub sample_laws : ConditionLaws sample
sample_laws = record {
  get-put = find-store;
  get-put_ne = find-store_ne;
  get-delete = find-without;
  get-delete_ne = find-without_ne;
  is_true-get = λ t cs. refl;
  is_stalled-get = λ cs. refl;
  is_reconciling-get = λ cs. refl;
  mark_true-put = λ t r m cs. refl;
  mark_false-put = λ t r m cs. refl;
  get-mark_stalled = λ r m cs. refl;
  get-progressive = λ r m cs. refl;
  get_ready-mark_ready = λ m cs. refl;
  get_reconciling-mark_ready = λ m cs. reconciling_gone cs;
  get_ready-mark_not_ready = λ r m cs. refl;
  get_reconciling-mark_not_ready = λ r m cs. reconciling_gone cs;
}
