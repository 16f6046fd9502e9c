-- ===== src/Generating/Scheduled.antt =====
-- Which pipelines a product deployment gets.
use mpas_product_controller.Base.{
  ◌≡◌, ◌≢◌, refl, sym, subst, ap, inl, inr, String, ◌==◌, some, none, Option, List, [], ◌∷◌, ◌++◌,
  All, eq_iff, arith, Bool-cases, Option-cases,
}
use mpas_product_controller.Kube.Action.{
  Outcome, Session, Outcome-cases, ◌>>=◌, done, fails, panics,
}
use mpas_product_controller.Api.{
  Pipeline, TargetRole, NamedRole, DescriptionPipeline, ProductDescription,
  ProductDeploymentGenerator,
}
use mpas_product_controller.Generating.Headers.{transform}
use mpas_product_controller.Generating.Env.{Call, Env, Run, File}
use mpas_product_controller.Generating.Pipelines.{
  role_named, Collected, schema_file, collect, create_product_pipeline, create_pipelines,
}

-- The first of the roles that has the name.
abbrev IsFirst : String → List NamedRole → TargetRole → Type 0
IsFirst name roles role =
    (before after : List NamedRole) × (named : NamedRole) × (roles ≡ before ++ named ∷ after)
    × All (λ (r : NamedRole). r.name ≢ name) before
    × (named.name ≡ name)
    × (named.target_role ≡ role)

role_named-IsFirst :
    (name : String) (roles : List NamedRole) (role : TargetRole)
    → role_named name roles ≡ some role
    → IsFirst name roles role
role_named-IsFirst name [] role h = absurd (cc)
role_named-IsFirst name (r ∷ rs) role h = elim (Bool-cases (r.name == name)) [
  | inl e ↦ ([], rs, r, refl, tt, (eq_iff r.name name).0 e, ground arith)
  | inr e ↦
      let (before, after, named, split, others, is_named, is_role) =
        role_named-IsFirst name rs role (rw e at h) in
      (
        r ∷ before,
        after,
        named,
        ap (λ x. r ∷ x) split,
        ((λ k. ground (arith, eq_iff r.name name)), others),
        is_named,
        is_role,
      )
]

-- A pipeline of the description becomes the pipeline with its resources and with the first target
-- role of its role's name.
abbrev pub IsScheduled : List NamedRole → DescriptionPipeline → Pipeline → Type 0
IsScheduled roles p pipe =
    (role : TargetRole) × (p.target_role_name ≢ "")
    × IsFirst p.target_role_name roles role
    × (pipe ≡ record {
      name = p.name;
      resource = p.source;
      localization = p.localization;
      configuration = record { rules = p.rules };
      target_role = role;
    })

-- The same for each of them, in order.
abbrev pub AllScheduled : List NamedRole → List DescriptionPipeline → List Pipeline → Type 0
AllScheduled roles [] [] = Unit
AllScheduled roles [] (q ∷ qs) = ⊥
AllScheduled roles (p ∷ ps) [] = ⊥
AllScheduled roles (p ∷ ps) (q ∷ qs) = IsScheduled roles p q × AllScheduled roles ps qs

abbrev pipelines_of : Outcome Collected → List Pipeline
pipelines_of (done c) = c.pipelines
pipelines_of (fails e) = []
pipelines_of panics = []

module _ (env : Env) (description : ProductDescription) where
  create_product_pipeline-IsScheduled :
      (p : DescriptionPipeline) (s : Session Call ProductDeploymentGenerator)
      (made : Pipeline × Option File)
      → (create_product_pipeline env description p s).0 ≡ done made
      → IsScheduled description.target_roles p made.0
  unfolding create_product_pipeline ◌>>=◌
  create_product_pipeline-IsScheduled p s made h = elim (Bool-cases (p.target_role_name == "")) [
    | inl e ↦ absurd (ground arith)
    | inr e ↦ elim (Option-cases (role_named p.target_role_name description.target_roles)) [
      | inl f ↦ absurd (ground arith)
      | inr (role, f) ↦ elim (Outcome-cases (schema_file env p s).0) [
        | inl (file, g) ↦ (
          role,
          (λ k. ground (arith, eq_iff p.target_role_name "")),
          role_named-IsFirst p.target_role_name description.target_roles role f,
          ground arith,
        )
        | inr bad ↦ absurd (ground arith)
      ]
    ]
  ]

  collect_ends :
      (pipe : Pipeline) (name : String) (file : Option File) (following : Run Collected)
      (s : Session Call ProductDeploymentGenerator) (c : Collected)
      → (collect env pipe name file following s).0 ≡ done c
      → (rest : Collected) × ((following s).0 ≡ done rest) × (c.pipelines ≡ pipe ∷ rest.pipelines)
  unfolding ◌>>=◌
  collect_ends pipe name none following s c h = elim (Outcome-cases (following s).0) [
    | inl (rest, e) ↦ (rest, e, ground arith)
    | inr bad ↦ absurd (ground arith)
  ]
  collect_ends pipe name (some file) following s c h =
      elim (Outcome-cases
        (env.render_markdown (transform (env.parse_markdown (env.comments file))))) [
          | inl (text, r) ↦ elim (Outcome-cases (following s).0) [
            | inl (rest, e) ↦ (rest, e, ground arith)
            | inr bad ↦ absurd (ground arith)
          ]
          | inr bad ↦ absurd (ground arith)
        ]

  -- Where the loop over the pipelines of a description ends with no error, the pipelines of the
  -- product deployment are those of the description, in order and none left out, each with its name,
  -- its resources, and the first target role of the description that has its role's name, which is
  -- not empty.
  pub create_pipelines-AllScheduled :
      (ps : List DescriptionPipeline) (s : Session Call ProductDeploymentGenerator) (c : Collected)
      → (create_pipelines env description ps s).0 ≡ done c
      → AllScheduled description.target_roles ps c.pipelines
  unfolding create_pipelines ◌>>=◌
  create_pipelines-AllScheduled [] s c h =
      subst (AllScheduled description.target_roles []) (ap pipelines_of h) tt
  create_pipelines-AllScheduled (p ∷ ps) s c h =
      elim (Outcome-cases (create_product_pipeline env description p s).0) [
        | inl (made, e) ↦
            let s' = (create_product_pipeline env description p s).1 in
            let (rest, f, g) =
              collect_ends made.0 p.name made.1 (create_pipelines env description ps) s' c
                (ground arith) in
            subst (AllScheduled description.target_roles (p ∷ ps)) (sym g) (
              create_product_pipeline-IsScheduled p s made e,
              create_pipelines-AllScheduled ps s' rest f,
            )
        | inr bad ↦ absurd (ground arith)
      ]
