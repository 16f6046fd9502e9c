-- ===== src/Targeting/Ready.antt =====
-- What a run of the target controller that succeeds leaves.
use mpas_product_controller.Base.{
  ◌≡◌, refl, sym, ap, ◌∙◌, inl, inr, ℕ, String, Option, none, some, List, [], arith, Bool-cases,
  ◌==◌, nat_eq, length,
}
use mpas_product_controller.Kube.Errors.{Result, text, after}
use mpas_product_controller.Kube.Action.{Session, Outcome-cases, ◌>>=◌, done, fail, pure}
use mpas_product_controller.Kube.Action.Maintains.{
  Maintains, Maintains-pure, Maintains-fail, Maintains-if, Maintains-on_error, Maintains-bind,
  Maintains-call,
}
use mpas_product_controller.Kube.Conditions.{
  Condition, ConditionLaws, progressing_reason, condition, holds, ready_condition,
  reconciling_condition, stalled_condition, succeeded_reason,
}
use mpas_product_controller.Kube.Store.{create_or_update, Maintains-create_or_update}
use mpas_product_controller.Api.{Target, KubernetesAccess, LabelSelector, ObjectMeta}
use mpas_product_controller.Targeting.Env.{Call, Env, Run, set_conditions}
use mpas_product_controller.Targeting.Access.{fresh, attach, secrets_of, reconcile_service_account}
use mpas_product_controller.Targeting.Status.{mark_retry, emit_if, emit_events, set_status}
use mpas_product_controller.Targeting.Reconcile.{
  access_of, access_failed, failed, announce, provision, prepare, close, reconcile_target,
}

module _ (env : Env) where
  open env.conditions use {get, delete}

  secrets_of-Maintains :
      (o : Target) (namespace : String) (selector : Option LabelSelector)
      → Maintains (λ s. s.obj ≡ o) (secrets_of env namespace selector)
  unfolding secrets_of
  secrets_of-Maintains o namespace none = Maintains-pure []
  secrets_of-Maintains o namespace (some selector) =
      Maintains-bind _ _
        (Maintains-on_error _ _
          (Maintains-call (Call.list_secrets selector.match_labels namespace) _ (λ s h. h))
          (λ e. Maintains-fail _))
        (λ secrets.
          Maintains-if (nat_eq (length secrets) 0) (fail (text "no secrets found")) (pure secrets)
            (λ _. Maintains-fail _) (λ _. Maintains-pure secrets))

  reconcile_service_account-Maintains :
      (o obj : Target) (namespace : ObjectMeta) (access : KubernetesAccess)
      → Maintains (λ s. s.obj ≡ o) (reconcile_service_account env obj namespace access)
  unfolding reconcile_service_account
  reconcile_service_account-Maintains o obj namespace access =
      Maintains-bind _ _ (secrets_of-Maintains o namespace.name obj.spec.secrets_selector)
        λ secrets.
          Maintains-bind _ _
            (Maintains-on_error _ _
              (Maintains-create_or_update env.service_accounts Call.write_service_account
                (attach secrets)
                (record {
                  meta = fresh obj.spec.service_account_name access.target_namespace;
                  image_pull_secrets = [];
                })
                (λ t s h. h))
              (λ e. Maintains-fail _))
            (λ _. Maintains-pure tt)

  -- The state before the namespace is looked up.
  abbrev unstalled : Session Call Target → Session Call Target
  unstalled s = record s { obj = set_conditions (delete stalled_condition) s.obj }

  abbrev make_namespace : String → Run ObjectMeta
  make_namespace name = create_or_update env.namespaces Call.write_namespace done (fresh name "")

  make_namespace-Maintains :
      (o : Target) (name : String) → Maintains (λ s. s.obj ≡ o) (make_namespace name)
  make_namespace-Maintains o name =
      Maintains-create_or_update env.namespaces Call.write_namespace done (fresh name "")
        (λ t s h. h)

  provision_success :
      (obj : Target) (access : KubernetesAccess) (s : Session Call Target) (r : Result)
      → (provision env obj access s).0 ≡ done r
      → (r ≡ after obj.spec.interval)
        × ((provision env obj access s).1.obj.status.conditions
            ≡ delete ready_condition (delete stalled_condition s.obj.status.conditions))
  unfolding provision failed ◌>>=◌
  provision_success obj access s r h =
      let ns = fresh access.target_namespace "" in
      let t = unstalled s in
      let s' = (make_namespace access.target_namespace t).1 in
      let j =
        ap (λ o. o.status.conditions)
          ((make_namespace-Maintains t.obj access.target_namespace).kept t refl) in
      elim (Outcome-cases (make_namespace access.target_namespace t).0) [
        | inl (w, e) ↦ elim (Bool-cases (obj.spec.service_account_name == "")) [
          | inl b ↦ (ground arith, ground arith)
          | inr b ↦
              let k =
                ap (λ o. o.status.conditions)
                  ((reconcile_service_account-Maintains s'.obj obj ns access).kept s' refl) in
              elim (Outcome-cases (reconcile_service_account env obj ns access s').0) [
                | inl (tt, q) ↦ (ground arith, ground arith)
                | inr bad ↦ absurd (ground arith)
              ]
        ]
        | inr bad ↦ absurd (ground arith)
      ]

  -- The state in which the body reads the object.
  abbrev begun : Session Call Target → Session Call Target
  begun s = record s {
    obj =
        set_conditions (env.conditions.progressive progressing_reason "reconciliation in progress")
          s.obj;
  }

  prepare_success :
      (s : Session Call Target) (r : Result)
      → (prepare env s).0 ≡ done r
      → (r ≡ after s.obj.spec.interval)
        × ((cs : List Condition) × ((prepare env s).1.obj.status.conditions
              ≡ delete ready_condition (delete stalled_condition cs)))
  unfolding prepare access_failed ◌>>=◌
  prepare_success s r h =
      let s1 = begun s in
      let s2 = (announce env s1.obj s1).1 in
      let s3 = (access_of env s.obj.spec.access s2).1 in
      elim (Outcome-cases (announce env s1.obj s1).0) [
        | inl (u, e) ↦ elim (Outcome-cases (access_of env s.obj.spec.access s2).0) [
          | inl (access, f) ↦
              let (a, b) = provision_success s1.obj access s3 r (ground arith) in
              (a, (s3.obj.status.conditions, ground (arith, b)))
          | inr bad ↦ absurd (ground arith)
        ]
        | inr bad ↦ absurd (ground arith)
      ]

  set_status_success :
      (laws : ConditionLaws env.conditions) (interval : ℕ) (old : List Condition)
      (s : Session Call Target)
      → get ready_condition s.obj.status.conditions ≡ none
      → get stalled_condition s.obj.status.conditions ≡ none
      → ((set_status env interval old (after interval) s).0 ≡ done (after (env.jitter interval)))
        × (get ready_condition
              (set_status env interval old (after interval) s).1.obj.status.conditions
            ≡ some (condition ready_condition holds succeeded_reason "Target is ready"))
        × (get reconciling_condition
              (set_status env interval old (after interval) s).1.obj.status.conditions
            ≡ none)
  unfolding set_status mark_retry emit_events emit_if ◌>>=◌
  set_status_success laws interval old s ready stalled =
      let cs0 = s.obj.status.conditions in
      let cs1 = delete reconciling_condition cs0 in
      let c = condition ready_condition holds succeeded_reason "Target is ready" in
      let g1 = laws.get-delete reconciling_condition cs0 in
      let g2 = laws.get-delete_ne ready_condition reconciling_condition cs0 (λ e. cc) ∙ ready in
      let g3 = laws.get-delete_ne stalled_condition reconciling_condition cs0 (λ e. cc) ∙ stalled in
      let i1 = laws.is_reconciling-get cs1 in
      let i2 = laws.is_stalled-get cs1 in
      let m = laws.mark_true-put ready_condition succeeded_reason "Target is ready" cs1 in
      let p1 = laws.get-put c cs1 in
      let p2 = laws.get-put_ne reconciling_condition c cs1 (λ e. cc) in
      (ground arith, ground arith, ground arith)

  closes :
      (s : Session Call Target) (q : Result)
      → (prepare env s).0 ≡ done q
      → q ≡ after s.obj.spec.interval
      → reconcile_target env s
        ≡ set_status env s.obj.spec.interval s.obj.status.conditions
            (after s.obj.spec.interval)
            (prepare env s).1
  unfolding reconcile_target close
  closes s q e a =
      rw e
        (ap (λ t. set_status env s.obj.spec.interval s.obj.status.conditions t (prepare env s).1) a)

  -- Where the method reconcile ends with no error, the target is ready with the message that it is,
  -- it is not reconciling any more, and the result is the jittered interval.
  pub reconcile_target_ready :
      (s : Session Call Target) (r : Result)
      → ConditionLaws env.conditions
      → (reconcile_target env s).0 ≡ done r
      → (r ≡ after (env.jitter s.obj.spec.interval))
        × (get ready_condition (reconcile_target env s).1.obj.status.conditions
            ≡ some (condition ready_condition holds succeeded_reason "Target is ready"))
        × (get reconciling_condition (reconcile_target env s).1.obj.status.conditions ≡ none)
  unfolding reconcile_target close ◌>>=◌
  reconcile_target_ready s r laws h = elim (Outcome-cases (prepare env s).0) [
    | inl (q, e) ↦
        let (a, (cs, b)) = prepare_success s q e in
        let s' = (prepare env s).1 in
        let ready =
          ap (get ready_condition) b
          ∙ laws.get-delete ready_condition (delete stalled_condition cs) in
        let stalled =
          ap (get stalled_condition) b
          ∙ laws.get-delete_ne stalled_condition ready_condition (delete stalled_condition cs)
              (λ k. cc)
          ∙ laws.get-delete stalled_condition cs in
        let (x, y, z) =
          set_status_success laws s.obj.spec.interval s.obj.status.conditions s' ready stalled in
        let w = closes s q e a in
        let d = sym h ∙ ap (λ t. t.0) w ∙ x in
        (
          cc,
          ap (λ t. get ready_condition t.1.obj.status.conditions) w ∙ y,
          ap (λ t. get reconciling_condition t.1.obj.status.conditions) w ∙ z,
        )
    | inr bad ↦ absurd (ground arith)
  ]
