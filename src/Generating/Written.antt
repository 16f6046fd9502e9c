-- ===== src/Generating/Written.antt =====
-- What the generator has left in the cluster: the sync and the validation.
use mpas_product_controller.Base.{
  ◌≡◌, refl, sym, ap, ◌∙◌, subst, ◌⊎◌, inl, inr, String, true, List, [], ◌∷◌, ◌++◌, none, some,
  arith, Contains, Option-cases, Bool-cases, if◌then◌else◌,
}
use mpas_product_controller.Kube.Action.{Outcome-cases, done}
use mpas_product_controller.Kube.Store.{Store, Stored, is_unchanged}
use mpas_product_controller.Kube.Objects.{ObjectLaws}
use mpas_product_controller.Api.{
  Component, ProductDeploymentGenerator, ProductDescription, Validation,
}
use mpas_product_controller.Project.{Project, CommitTemplate}
use mpas_product_controller.Generating.Env.{Call, Env, SyncRequest}
use mpas_product_controller.Generating.Syncs.{own_sync, sync_request}
use mpas_product_controller.Generating.Reconcile.{own_validation, validation}

-- The cluster had the object when it was looked for.
abbrev pub IsFound : {T : Type 0} → Store Call T → T → List Call → Type 0
IsFound {T} store t calls =
    (asked : T) × (before later : List Call) × (calls ≡ later ++ before)
    × (store.find before asked ≡ done (some t))

module _ {T : Type 0} (store : Store Call T) where
  IsFound-stored :
      (written : T → Call) (desired t : T) (before final : List Call)
      → store.find before desired ≡ done (some t)
      → final ≡ (if is_unchanged store (some t) t then before else written t ∷ before)
      → IsFound store t final
  IsFound-stored written desired t before final f r = elim (Bool-cases (store.same t t)) [
    | inl e ↦ (desired, before, [], rw e at r, f)
    | inr e ↦ (desired, before, written t ∷ [], rw e at r, f)
  ]

module _ (env : Env) (obj : ProductDeploymentGenerator) where
  -- A new sync asks for the snapshot of the name, in the repository that the generator names, or else
  -- in the project's, with the commit template and the branch of the project.
  pub record IsRequest (project : Project) (repository snapshot : String) (sync : SyncRequest)
      : Type 0 where
    pub snapshot_ref : sync.snapshot_ref ≡ snapshot
    pub repository_name :
        ((obj.spec.repository_ref ≡ none) × (sync.repository_ref.name ≡ repository))
        ⊎ (obj.spec.repository_ref ≡ some sync.repository_ref.name)
    pub repository_namespace : sync.repository_ref.namespace ≡ env.mpas_system_namespace
    pub template : project.commit_template ≡ some sync.commit_template
    pub branch : sync.base_branch ≡ project.default_branch
    pub sub_path : sync.sub_path ≡ "products/."

  -- The sync was written as such a request, or the cluster had it already.
  abbrev pub IsSynced : Project → String → String → SyncRequest → List Call → Type 0
  IsSynced project repository snapshot sync calls =
      (IsRequest project repository snapshot sync × Contains (Call.write_sync sync) calls)
      ⊎ IsFound env.syncs sync calls

  -- A new validation checks the sync by the schema; or the cluster had the validation already.
  abbrev pub IsValidated : SyncRequest → String → Validation → List Call → Type 0
  IsValidated sync schema v calls =
      ((v.spec.sync_ref ≡ record { name = sync.meta.name; namespace = sync.meta.namespace })
        × (v.spec.schema ≡ schema)
        × Contains (Call.write_validation v) calls)
      ⊎ IsFound env.validations v calls

  pub IsSynced-cons :
      (project : Project) (repository snapshot : String) (sync : SyncRequest) (c : Call)
      (calls : List Call)
      → IsSynced project repository snapshot sync calls
      → IsSynced project repository snapshot sync (c ∷ calls)
  IsSynced-cons project repository snapshot sync c calls (inl (r, h)) = inl (r, inr h)
  IsSynced-cons project repository snapshot sync c calls (inr (asked, before, later, e, f)) =
      inr (asked, before, c ∷ later, ap (λ x. c ∷ x) e, f)

  own_sync-created :
      (b sync : SyncRequest) → b.meta.created ≡ true → own_sync env obj b ≡ done sync → b ≡ sync
  unfolding own_sync
  own_sync-created b sync c h = ground arith

  own_validation-created :
      (b v : Validation) → b.meta.created ≡ true → own_validation env obj b ≡ done v → b ≡ v
  unfolding own_validation
  own_validation-created b v c h = ground arith

  own_sync-new :
      (description : ProductDescription) (component : Component) (project : Project)
      (repository snapshot : String) (template : CommitTemplate) (sync : SyncRequest)
      → project.commit_template ≡ some template
      → own_sync env obj
          (sync_request env obj description component project repository snapshot template)
        ≡ done sync
      → IsRequest project repository snapshot sync
  unfolding own_sync
  own_sync-new description component project repository snapshot template sync t h =
      let d = sync_request env obj description component project repository snapshot template in
      elim (Outcome-cases (env.set_owner obj.meta d.meta)) [
        | inl (m, e) ↦ record {
          snapshot_ref = ground arith;
          repository_name = elim (Option-cases obj.spec.repository_ref) [
            | inl n ↦ inl (n, ground arith)
            | inr (r, n) ↦ inr (ground arith)
          ];
          repository_namespace = ground arith;
          template = ground arith;
          branch = ground arith;
          sub_path = ground arith;
        }
        | inr bad ↦ absurd (ground arith)
      ]

  own_validation-new :
      (component : Component) (sync : SyncRequest) (schema : String) (v : Validation)
      → own_validation env obj (validation env obj component sync schema) ≡ done v
      → (v.spec.sync_ref ≡ record { name = sync.meta.name; namespace = sync.meta.namespace })
        × (v.spec.schema ≡ schema)
  unfolding own_validation
  own_validation-new component sync schema v h =
      elim (Outcome-cases
        (env.set_owner obj.meta (validation env obj component sync schema).meta)) [
          | inl (m, e) ↦ (ground arith, ground arith)
          | inr bad ↦ absurd (ground arith)
        ]

  pub Stored-IsSynced :
      (description : ProductDescription) (component : Component) (project : Project)
      (repository snapshot : String) (template : CommitTemplate) (before final : List Call)
      (sync : SyncRequest)
      → ObjectLaws env.syncs (λ x. x.meta)
      → project.commit_template ≡ some template
      → Stored env.syncs Call.write_sync
          (own_sync env obj)
          (sync_request env obj description component project repository snapshot template)
          before
          sync
          final
      → IsSynced project repository snapshot sync final
  Stored-IsSynced description component project repository snapshot template before final sync laws
        t st =
      let d = sync_request env obj description component project repository snapshot template in
      elim (Option-cases st.existing) [
        | inl e ↦ inl (
          own_sync-new description component project repository snapshot template sync t
              (rw e at st.mutated),
          subst (Contains _) (sym (rw e at st.recorded)) (inl refl),
        )
        | inr (b, e) ↦
            let f = st.found ∙ ap done e in
            let q =
              own_sync-created b sync (laws.found-created before d b f) (rw e at st.mutated) in
            inr (
              IsFound-stored env.syncs Call.write_sync d sync before final
                (f ∙ ap (λ x. done (some x)) q) (rw (e, q) at st.recorded))
      ]

  pub Stored-IsValidated :
      (component : Component) (sync : SyncRequest) (schema : String) (before final : List Call)
      (v : Validation)
      → ObjectLaws env.validations (λ x. x.meta)
      → Stored env.validations Call.write_validation
          (own_validation env obj)
          (validation env obj component sync schema)
          before
          v
          final
      → IsValidated sync schema v final
  Stored-IsValidated component sync schema before final v laws st =
      let d = validation env obj component sync schema in
      elim (Option-cases st.existing) [
        | inl e ↦
            let (a, b) = own_validation-new component sync schema v (rw e at st.mutated) in
            inl (a, b, subst (Contains _) (sym (rw e at st.recorded)) (inl refl))
        | inr (b, e) ↦
            let f = st.found ∙ ap done e in
            let q =
              own_validation-created b v (laws.found-created before d b f) (rw e at st.mutated) in
            inr (
              IsFound-stored env.validations Call.write_validation d v before final
                (f ∙ ap (λ x. done (some x)) q) (rw (e, q) at st.recorded))
      ]
