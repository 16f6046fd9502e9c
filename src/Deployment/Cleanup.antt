-- ===== src/Deployment/Cleanup.antt =====
-- What becomes of the config maps of a deployment when its values change.
use mpas_product_controller.Base.{
  ◌≡◌, refl, sym, ap, ◌∙◌, subst, inl, inr, String, Bool, true, false, not, List, [], ◌∷◌, Option,
  none, some, ◌==◌, arith, any, All, Contains, Bool-cases,
}
use mpas_product_controller.Kube.Errors.{Error, Key}
use mpas_product_controller.Kube.Action.{Session, Outcome-cases, ◌>>=◌, done, fails, attempt, call}
use mpas_product_controller.Kube.Action.Maintains.{
  Maintains, Maintains-pure, Maintains-bind, Maintains-attempt, Maintains-call,
}
use mpas_product_controller.Api.{ProductDeployment}
use mpas_product_controller.Deployment.Env.{Call, Env, ConfigMap}
use mpas_product_controller.Deployment.ConfigMaps.{
  config_name, config_map, joined_with, delete_all, create_config_map, generate_config_map,
}

module _ (env : Env) where
  delete_all-Maintains :
      (c : Call) (cms : List ConfigMap) (errf : Option Error)
      → Maintains (λ s. Contains c s.calls) (delete_all env errf cms)
  unfolding delete_all
  delete_all-Maintains c [] errf = Maintains-pure errf
  delete_all-Maintains c (cm ∷ cms) errf =
      Maintains-bind
        (attempt (call (Call.delete_config_map cm) (λ calls. env.delete_config_map calls cm)))
        (λ r. delete_all env (joined_with env errf r) cms)
        (Maintains-attempt
          (call (Call.delete_config_map cm) (λ calls. env.delete_config_map calls cm))
          (Maintains-call (Call.delete_config_map cm) (λ calls. env.delete_config_map calls cm)
            (λ s h. inr h)))
        (λ r. delete_all-Maintains c cms (joined_with env errf r))

  -- What the loop has to show for itself when it does not panic.
  abbrev IsTried : List ConfigMap → List Call → Type 0
  IsTried cms calls = All (λ cm. Contains (Call.delete_config_map cm) calls) cms

  abbrev deleted : ConfigMap → Session Call ProductDeployment → Session Call ProductDeployment
  deleted cm s = record s { calls = Call.delete_config_map cm ∷ s.calls }

  delete_all_turn :
      (cm : ConfigMap) (cms : List ConfigMap) (errf r : Option Error)
      (s : Session Call ProductDeployment)
      → (delete_all env errf (cm ∷ cms) s).0 ≡ done r
      → (errf' : Option Error) × (delete_all env errf (cm ∷ cms) s
          ≡ delete_all env errf' cms (deleted cm s))
  unfolding delete_all ◌>>=◌
  delete_all_turn cm cms errf r s h = elim (Outcome-cases (env.delete_config_map s.calls cm)) [
    | inl (u, e) ↦ (joined_with env errf (done u), rw e refl)
    | inr (inl (err, e)) ↦ (joined_with env errf (fails err), rw e refl)
    | inr (inr e) ↦ absurd (ground arith)
  ]

  delete_all_tries :
      (cms : List ConfigMap) (errf r : Option Error) (s : Session Call ProductDeployment)
      → (delete_all env errf cms s).0 ≡ done r
      → IsTried cms (delete_all env errf cms s).1.calls
  delete_all_tries [] errf r s h = tt
  delete_all_tries (cm ∷ cms) errf r s h =
      let (errf', e) = delete_all_turn cm cms errf r s h in
      subst (λ x. IsTried (cm ∷ cms) x.1.calls) (sym e)
        (
          (delete_all-Maintains (Call.delete_config_map cm) cms errf').kept (deleted cm s)
              (inl refl),
          delete_all_tries cms errf' r (deleted cm s) (subst (λ x. x.0 ≡ done r) e h),
        )

  abbrev pub list_key : ProductDeployment → Key
  list_key obj = record { name = obj.meta.name; namespace = obj.meta.namespace }

  abbrev pub is_known : ProductDeployment → String → List ConfigMap → Bool
  is_known obj values existing = any (λ cm. cm.meta.name == config_name env obj values) existing

  -- What createOrUpdatedValuesConfigMap leaves, by whether the name is new.
  abbrev pub IsCurrent :
      ProductDeployment → String → List ConfigMap → Bool → List Call → List Call → Type 0
  IsCurrent obj values existing true before calls =
      Contains (Call.create_config_map (config_map env obj values)) calls × IsTried existing calls
  IsCurrent obj values existing false before calls =
      calls ≡ Call.list_config_maps (list_key obj) ∷ before

  abbrev creating :
      ProductDeployment → String → Session Call ProductDeployment → Session Call ProductDeployment
  creating obj values s = record s {
    calls = Call.create_config_map (config_map env obj values) ∷ s.calls;
  }

  create_config_map_ends :
      (obj : ProductDeployment) (values : String) (existing : List ConfigMap)
      (s : Session Call ProductDeployment) (answer : String × Bool)
      → (create_config_map env obj values existing s).0 ≡ done answer
      → ((delete_all env none existing (creating obj values s)).0 ≡ done none)
        × ((create_config_map env obj values existing s).1
            ≡ (delete_all env none existing (creating obj values s)).1)
        × (answer ≡ (config_name env obj values, true))
  unfolding create_config_map ◌>>=◌
  create_config_map_ends obj values existing s answer h =
      elim (Outcome-cases (env.create_config_map s.calls (config_map env obj values))) [
        | inl (u, e) ↦
            elim (Outcome-cases (env.set_owner obj.meta (config_map env obj values).meta)) [
              | inl (m, f) ↦
                  elim (Outcome-cases (delete_all env none existing (creating obj values s)).0) [
                    | inl (none, q) ↦ (q, ground arith, ground arith)
                    | inl (some r, q) ↦ absurd (ground arith)
                    | inr bad ↦ absurd (ground arith)
                  ]
              | inr bad ↦ absurd (ground arith)
            ]
        | inr bad ↦ absurd (ground arith)
      ]

  create_config_map-IsCurrent :
      (obj : ProductDeployment) (values : String) (existing : List ConfigMap)
      (s : Session Call ProductDeployment) (answer : String × Bool)
      → (create_config_map env obj values existing s).0 ≡ done answer
      → IsCurrent obj values existing true s.calls
          (create_config_map env obj values existing s).1.calls
  create_config_map-IsCurrent obj values existing s answer h =
      let (q, e, _) = create_config_map_ends obj values existing s answer h in
      let c = Call.create_config_map (config_map env obj values) in
      subst (λ x. IsCurrent obj values existing true s.calls x.calls) (sym e)
        (
          (delete_all-Maintains c existing none).kept (creating obj values s) (inl refl),
          delete_all_tries existing none none (creating obj values s) q,
        )

  -- The state after the list call.
  abbrev listed :
      ProductDeployment → Session Call ProductDeployment → Session Call ProductDeployment
  listed obj s = record s { calls = Call.list_config_maps (list_key obj) ∷ s.calls }

  generate_known :
      (obj : ProductDeployment) (values : String) (existing : List ConfigMap)
      (s : Session Call ProductDeployment)
      → env.list_config_maps s.calls (list_key obj) ≡ done existing
      → is_known obj values existing ≡ true
      → generate_config_map env obj values s
        ≡ (done (config_name env obj values, false), listed obj s)
  unfolding generate_config_map ◌>>=◌
  generate_known obj values existing s e k = rw (e, k) refl

  generate_new :
      (obj : ProductDeployment) (values : String) (existing : List ConfigMap)
      (s : Session Call ProductDeployment)
      → env.list_config_maps s.calls (list_key obj) ≡ done existing
      → is_known obj values existing ≡ false
      → generate_config_map env obj values s
        ≡ create_config_map env obj values existing (listed obj s)
  unfolding generate_config_map ◌>>=◌
  generate_new obj values existing s e k = rw (e, k) refl

  -- Where generateConfigMap returns no error, it returns the name made of the deployment's name and
  -- the hash of the values, and says that it is new exactly when no listed config map has it. If it
  -- is new, the config map was created, with no owner, and a delete was called for every listed one;
  -- if not, nothing was written.
  pub generate_config_map-IsCurrent :
      (obj : ProductDeployment) (values : String) (existing : List ConfigMap)
      (s : Session Call ProductDeployment) (name : String) (updated : Bool)
      → env.list_config_maps s.calls (list_key obj) ≡ done existing
      → (generate_config_map env obj values s).0 ≡ done (name, updated)
      → (name ≡ config_name env obj values)
        × (updated ≡ not (is_known obj values existing))
        × IsCurrent obj values existing
            (not (is_known obj values existing))
            s.calls
            (generate_config_map env obj values s).1.calls
  generate_config_map-IsCurrent obj values existing s name updated e h =
      elim (Bool-cases (is_known obj values existing)) [
        | inl k ↦
            let g = generate_known obj values existing s e k in
            (ground arith, ground arith, rw (k, g) refl)
        | inr k ↦
            let g = generate_new obj values existing s e k in
            let h' = subst (λ x. x.0 ≡ done (name, updated)) g h in
            let (_, _, a) =
              create_config_map_ends obj values existing (listed obj s) (name, updated) h' in
            (
              ap (λ x. x.0) a,
              ap (λ x. x.1) a ∙ sym (ap not k),
              subst
                  (λ b.
                    IsCurrent obj values existing (not b) s.calls
                      (generate_config_map env obj values s).1.calls)
                  (sym k)
                  (subst (λ x. IsCurrent obj values existing true s.calls x.1.calls) (sym g)
                    (create_config_map-IsCurrent obj values existing (listed obj s) (name, updated)
                      h')),
            )
      ]
