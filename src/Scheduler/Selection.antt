-- ===== src/Scheduler/Selection.antt =====
-- Which target is selected.
use mpas_product_controller.Base.{
  ◌≡◌, refl, ◌∙◌, ◌≢◌, ◌⊎◌, inl, inr, String, List, [], ◌∷◌, ◌==◌, eq_iff, arith, length, keep,
  get_elem?_total, Contains, Contains-get_elem?, Contains-keep,
}
use mpas_product_controller.Kube.Errors.{text}
use mpas_product_controller.Kube.Action.{Session, Outcome-cases, ◌>>=◌, done, fails}
use mpas_product_controller.Api.{Target, TargetRole, ProductDeploymentPipeline}
use mpas_product_controller.Scheduler.Env.{Call, Env, PicksBelow}
use mpas_product_controller.Scheduler.Select.{search, choose, or_system, select_target}

module _ (env : Env) where
  -- The list that the filter runs on: the namespace's targets, or those of the system namespace if
  -- the namespace has none.
  pub data Listed (role : TargetRole) (namespace : String) (calls : List Call) (ts : List Target)
      : Type 0 where
    in_namespace :
        ts ≢ []
        → env.list_targets calls role.selector namespace ≡ done ts
        → Listed role namespace calls ts
    in_system :
        env.list_targets calls role.selector namespace ≡ done []
        → env.list_targets
            (Call.list_targets namespace role.selector ∷ calls)
            role.selector
            env.mpas_system_namespace
          ≡ done ts
        → Listed role namespace calls ts

  abbrev pub of_type : TargetRole → List Target → List Target
  of_type role = keep (λ t. t.spec.type == role.type)

  choose_sound :
      (ts : List Target) (s : Session Call ProductDeploymentPipeline) (t : Target)
      → (choose env ts s).0 ≡ done t
      → Contains t ts
  unfolding choose ◌>>=◌
  choose_sound [] s t h = absurd (cc)
  choose_sound (u ∷ []) s t h = inl (cc)
  choose_sound (u ∷ v ∷ ts) s t h =
      Contains-get_elem? (u ∷ v ∷ ts) (env.pick s.calls (length (u ∷ v ∷ ts))) t (ground arith)

  abbrev listing : TargetRole → String → List Call → List Call
  listing role namespace calls = Call.list_targets namespace role.selector ∷ calls

  select_system :
      (role : TargetRole) (namespace : String) (s : Session Call ProductDeploymentPipeline)
      (t : Target)
      → env.list_targets s.calls role.selector namespace ≡ done []
      → (select_target env role namespace s).0 ≡ done t
      → (ts : List Target) × Listed role namespace s.calls ts
        × (s' : Session Call ProductDeploymentPipeline) × ((choose env (of_type role ts) s').0
            ≡ done t)
  unfolding select_target or_system search ◌>>=◌
  select_system role namespace s t e h =
      let calls = listing role namespace s.calls in
      elim (Outcome-cases (env.list_targets calls role.selector env.mpas_system_namespace)) [
        | inl (ts, f) ↦ (
          ts,
          in_system e f,
          record s { calls = listing role env.mpas_system_namespace calls },
          ground arith,
        )
        | inr bad ↦ absurd (ground arith)
      ]

  select_inv :
      (role : TargetRole) (namespace : String) (s : Session Call ProductDeploymentPipeline)
      (t : Target)
      → (select_target env role namespace s).0 ≡ done t
      → (ts : List Target) × Listed role namespace s.calls ts
        × (s' : Session Call ProductDeploymentPipeline) × ((choose env (of_type role ts) s').0
            ≡ done t)
  unfolding select_target or_system search ◌>>=◌
  select_inv role namespace s t h =
      elim (Outcome-cases (env.list_targets s.calls role.selector namespace)) [
        | inl ([], e) ↦ select_system role namespace s t e h
        | inl (u ∷ us, e) ↦ (
          u ∷ us,
          in_namespace (λ z. cc) e,
          record s { calls = listing role namespace s.calls },
          ground arith,
        )
        | inr bad ↦ absurd (ground arith)
      ]

  -- A selected target stands in the list of the pipeline's namespace, or, if that has no target at
  -- all for the selector, in the list of the system namespace; its type is the role's.
  pub select_target_sound :
      (role : TargetRole) (namespace : String) (s : Session Call ProductDeploymentPipeline)
      (t : Target)
      → (select_target env role namespace s).0 ≡ done t
      → (ts : List Target) × Listed role namespace s.calls ts
        × Contains t ts
        × (t.spec.type ≡ role.type)
  select_target_sound role namespace s t h =
      let (ts, l, s', e) = select_inv role namespace s t h in
      let (c, p) =
        Contains-keep (λ u. u.spec.type == role.type) ts t
          (choose_sound (of_type role ts) s' t e) in
      (ts, l, c, (eq_iff t.spec.type role.type).0 p)

  choose_total :
      PicksBelow env
      → (ts : List Target) (s : Session Call ProductDeploymentPipeline)
      → ((ts ≡ [])
          × ((choose env ts s).0
              ≡ fails (text "no targets found using the provided selector filters")))
        ⊎ ((t : Target) × ((choose env ts s).0 ≡ done t))
  unfolding choose ◌>>=◌
  choose_total below [] s = inl (refl, refl)
  choose_total below (t ∷ []) s = inr (t, refl)
  choose_total below (t ∷ u ∷ ts) s =
      let n = length (t ∷ u ∷ ts) in
      let (v, e) =
        get_elem?_total (t ∷ u ∷ ts) (env.pick s.calls n) (below s.calls n (omega arith)) in
      inr (v, ground arith)

  select_listed :
      (role : TargetRole) (namespace : String) (s : Session Call ProductDeploymentPipeline)
      (ts : List Target)
      → env.as_selector role.selector ≡ done tt
      → Listed role namespace s.calls ts
      → (s' : Session Call ProductDeploymentPipeline) × ((select_target env role namespace s).0
          ≡ (choose env (of_type role ts) s').0)
  unfolding select_target or_system search ◌>>=◌
  select_listed role namespace s [] p (in_namespace ne e) = absurd (ne refl)
  select_listed role namespace s (u ∷ us) p (in_namespace ne e) =
      (record s { calls = listing role namespace s.calls }, ground arith)
  select_listed role namespace s ts p (in_system e f) = (
    record s { calls = listing role env.mpas_system_namespace (listing role namespace s.calls) },
    ground arith,
  )

  -- If the random index is below the number that it is drawn for, the selector parses and the lists
  -- are answered, then either no listed target has the role's type and the error says so, or a
  -- target is selected.
  pub select_target_total :
      PicksBelow env
      → (role : TargetRole) (namespace : String) (s : Session Call ProductDeploymentPipeline)
        (ts : List Target)
      → env.as_selector role.selector ≡ done tt
      → Listed role namespace s.calls ts
      → ((of_type role ts ≡ [])
          × ((select_target env role namespace s).0
              ≡ fails (text "no targets found using the provided selector filters")))
        ⊎ ((t : Target) × ((select_target env role namespace s).0 ≡ done t))
  select_target_total below role namespace s ts p l =
      let (s', e) = select_listed role namespace s ts p l in
      elim (choose_total below (of_type role ts) s') [
        | inl (none_fits, f) ↦ inl (none_fits, e ∙ f)
        | inr (t, f) ↦ inr (t, e ∙ f)
      ]
