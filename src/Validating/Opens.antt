-- ===== src/Validating/Opens.antt =====
-- When shouldRun lets a validation run.
use mpas_product_controller.Base.{
  ◌≡◌, refl, sym, ap, ◌∙◌, subst, ◌∷◌, ◌⊎◌, inl, inr, String, true, false, not, ◌||◌, Option, none,
  some, List, arith, nat_eq, Bool-cases,
}
use mpas_product_controller.Kube.Errors.{Key}
use mpas_product_controller.Kube.Action.{Session, Outcome-cases, ◌>>=◌, done}
use mpas_product_controller.Kube.Conditions.{ready_condition}
use mpas_product_controller.Api.{Validation}
use mpas_product_controller.Git.{Repository, Sync}
use mpas_product_controller.Project.{Project, project_from_namespace}
use mpas_product_controller.Validating.Env.{Call, Env, Run, GitRepository}
use mpas_product_controller.Validating.Gate.{
  runs, track, clean_up, with_repository, with_ref, with_sync, should_run,
}

module _ (env : Env) (product : String) (obj : Validation) where
  -- The run ends with the look for the Git repository that tracks the values.
  abbrev Tracks : List Call → List Call → Type 0
  Tracks before final = (ref : Key) × (final ≡ Call.get_git_repository ref ∷ before)

  track_runs :
      (sync sync' : Sync) (repository repository' : Repository) (git : GitRepository)
      (ref : Option Key) (s : Session Call Validation)
      → (track env product obj sync repository ref s).0 ≡ done (runs sync' repository' git)
      → (sync ≡ sync')
        × (repository ≡ repository')
        × Tracks s.calls (track env product obj sync repository ref s).1.calls
  unfolding track ◌>>=◌
  track_runs sync sync' repository repository' git none s h =
      (ground arith, ground arith, absurd (ground arith))
  track_runs sync sync' repository repository' git (some ref) s h =
      elim (Outcome-cases (env.get_git_repository s.calls ref)) [
        | inl (g, e) ↦ (ground arith, ground arith, (ref, rw e refl))
        | inr bad ↦ absurd (ground arith)
      ]

  -- The state after the pull request was looked up.
  abbrev asked : Sync → Repository → Session Call Validation → Session Call Validation
  asked sync repository s = record s { calls = Call.is_merged_or_closed repository sync ∷ s.calls }

  with_repository_unready :
      (sync : Sync) (repository : Repository) (s : Session Call Validation)
      → env.conditions.is_true ready_condition obj.status.conditions ≡ false
      → with_repository env product obj sync repository s
        ≡ track env product obj sync repository obj.status.git_repository_ref s
  unfolding with_repository
  with_repository_unready sync repository s k = rw k refl

  with_repository_open :
      (sync : Sync) (repository : Repository) (s : Session Call Validation)
      → env.conditions.is_true ready_condition obj.status.conditions ≡ true
      → env.is_merged_or_closed s.calls repository sync ≡ done false
      → with_repository env product obj sync repository s
        ≡ track env product obj sync repository obj.status.git_repository_ref
            (asked sync repository s)
  unfolding with_repository ◌>>=◌
  with_repository_open sync repository s k e = rw (k, e) refl

  -- The validation was not ready, or the call before the last has asked the validator, which has
  -- said that the pull request is open.
  abbrev pub IsOpen : Sync → Repository → List Call → Type 0
  IsOpen sync repository final =
      (env.conditions.is_true ready_condition obj.status.conditions ≡ false)
      ⊎ ((ref : Key) × (before : List Call) × (env.is_merged_or_closed before repository sync
            ≡ done false)
          × (final
              ≡ Call.get_git_repository ref ∷ Call.is_merged_or_closed repository sync ∷ before))

  -- What a run that goes on has found, from the state `s` on.
  abbrev Opens : Sync → Sync → Repository → List Call → Type 0
  Opens sync sync' repository final = (sync ≡ sync') × IsOpen sync' repository final

  opened :
      (sync sync' : Sync) (repository repository' : Repository) (before final : List Call)
      → sync ≡ sync'
      → repository ≡ repository'
      → env.is_merged_or_closed before repository sync ≡ done false
      → Tracks (Call.is_merged_or_closed repository sync ∷ before) final
      → Opens sync sync' repository' final
  opened sync sync' repository repository' before final a b e (ref, t) = (
    a,
    inr (
      ref,
      before,
      ap (λ x. env.is_merged_or_closed before repository' x) (sym a)
          ∙ ap (λ x. env.is_merged_or_closed before x sync) (sym b)
          ∙ e,
      t
          ∙ ap (λ x. Call.get_git_repository ref ∷ Call.is_merged_or_closed x sync ∷ before) b
          ∙ ap (λ x. Call.get_git_repository ref ∷ Call.is_merged_or_closed repository' x ∷ before)
              a,
    ),
  )

  with_repository_runs :
      (sync sync' : Sync) (repository repository' : Repository) (git : GitRepository)
      (s : Session Call Validation)
      → (with_repository env product obj sync repository s).0 ≡ done (runs sync' repository' git)
      → Opens sync sync' repository' (with_repository env product obj sync repository s).1.calls
  unfolding with_repository ◌>>=◌ clean_up
  with_repository_runs sync sync' repository repository' git s h =
      elim (Bool-cases (env.conditions.is_true ready_condition obj.status.conditions)) [
        | inr k ↦
            let w = with_repository_unready sync repository s k in
            let (a, b, c) =
              track_runs sync sync' repository repository' git obj.status.git_repository_ref s
                (subst (λ x. x.0 ≡ done (runs sync' repository' git)) w h) in
            (a, inl k)
        | inl k ↦ elim (Outcome-cases (env.is_merged_or_closed s.calls repository sync)) [
          | inl (true, e) ↦ absurd (ground arith)
          | inl (false, e) ↦
              let w = with_repository_open sync repository s k e in
              let (a, b, c) =
                track_runs sync sync' repository repository' git obj.status.git_repository_ref
                  (asked sync repository s)
                  (subst (λ x. x.0 ≡ done (runs sync' repository' git)) w h) in
              opened sync sync' repository repository' s.calls _ a b e (
                subst (λ x. Tracks (Call.is_merged_or_closed repository sync ∷ s.calls) x.1.calls)
                  (sym w) c)
          | inr bad ↦ absurd (ground arith)
        ]
      ]

  with_ref_found :
      (sync : Sync) (ref : Key) (repository : Repository) (s : Session Call Validation)
      → env.get_repository s.calls ref ≡ done repository
      → with_ref env product obj sync (some ref) s
        ≡ with_repository env product obj sync repository
            (record s { calls = Call.get_repository ref ∷ s.calls })
  unfolding with_ref ◌>>=◌
  with_ref_found sync ref repository s e = rw e refl

  with_ref_runs :
      (sync sync' : Sync) (ref : Option Key) (repository' : Repository) (git : GitRepository)
      (s : Session Call Validation)
      → (with_ref env product obj sync ref s).0 ≡ done (runs sync' repository' git)
      → Opens sync sync' repository' (with_ref env product obj sync ref s).1.calls
  unfolding with_ref ◌>>=◌
  with_ref_runs sync sync' none repository' git s h = absurd (ground arith)
  with_ref_runs sync sync' (some ref) repository' git s h =
      elim (Outcome-cases (env.get_repository s.calls ref)) [
        | inl (repository, e) ↦
            let w = with_ref_found sync ref repository s e in
            subst (λ x. Opens sync sync' repository' x.1.calls) (sym w)
              (with_repository_runs sync sync' repository repository' git
                (record s { calls = Call.get_repository ref ∷ s.calls })
                (subst (λ x. x.0 ≡ done (runs sync' repository' git)) w h))
        | inr bad ↦ absurd (ground arith)
      ]

  -- The look for the project.
  abbrev find_project : Sync → Run Project
  find_project sync =
      project_from_namespace env.projects sync.meta.namespace env.mpas_system_namespace

  with_sync_found :
      (sync : Sync) (project : Project) (s : Session Call Validation)
      → not (env.conditions.is_ready sync.conditions) || nat_eq sync.pull_request_id 0 ≡ false
      → (find_project sync s).0 ≡ done project
      → env.conditions.is_ready project.conditions ≡ true
      → with_sync env product obj sync s
        ≡ with_ref env product obj sync project.repository_ref (find_project sync s).1
  unfolding with_sync ◌>>=◌
  with_sync_found sync project s k e r = rw (k, e, r) refl

  with_sync_runs :
      (sync sync' : Sync) (repository : Repository) (git : GitRepository)
      (s : Session Call Validation)
      → (with_sync env product obj sync s).0 ≡ done (runs sync' repository git)
      → (env.conditions.is_ready sync.conditions ≡ true)
        × (nat_eq sync.pull_request_id 0 ≡ false)
        × Opens sync sync' repository (with_sync env product obj sync s).1.calls
  unfolding with_sync ◌>>=◌
  with_sync_runs sync sync' repository git s h =
      elim (Bool-cases
        (not (env.conditions.is_ready sync.conditions) || nat_eq sync.pull_request_id 0)) [
          | inl k ↦ absurd (ground arith)
          | inr k ↦ elim (Outcome-cases (find_project sync s).0) [
            | inl (project, e) ↦ elim (Bool-cases (env.conditions.is_ready project.conditions)) [
              | inl r ↦
                  let w = with_sync_found sync project s k e r in
                  (
                    ground arith,
                    ground arith,
                    subst (λ x. Opens sync sync' repository x.1.calls) (sym w)
                        (with_ref_runs sync sync' project.repository_ref repository git
                          (find_project sync s).1
                          (subst (λ x. x.0 ≡ done (runs sync' repository git)) w h)),
                  )
              | inr r ↦ absurd (ground arith)
            ]
            | inr bad ↦ absurd (ground arith)
          ]
        ]

  should_run_found :
      (sync : Sync) (s : Session Call Validation)
      → env.get_sync s.calls obj.spec.sync_ref ≡ done sync
      → should_run env product obj s
        ≡ with_sync env product obj sync
            (record s { calls = Call.get_sync obj.spec.sync_ref ∷ s.calls })
  unfolding should_run ◌>>=◌
  should_run_found sync s e = rw e refl

  -- Where shouldRun says to run, the sync that it returns is that of the validation, is ready and
  -- has a pull request. Either the validation was not ready before, or the call before the last one
  -- of the run has asked the validator of that sync and of the returned repository, and the answer
  -- was that the pull request is neither merged nor closed.
  pub should_run_open :
      (sync : Sync) (repository : Repository) (git : GitRepository) (s : Session Call Validation)
      → (should_run env product obj s).0 ≡ done (runs sync repository git)
      → (env.get_sync s.calls obj.spec.sync_ref ≡ done sync)
        × (env.conditions.is_ready sync.conditions ≡ true)
        × (nat_eq sync.pull_request_id 0 ≡ false)
        × IsOpen sync repository (should_run env product obj s).1.calls
  unfolding should_run ◌>>=◌
  should_run_open sync repository git s h =
      elim (Outcome-cases (env.get_sync s.calls obj.spec.sync_ref)) [
        | inl (found, e) ↦
            let w = should_run_found found s e in
            let (b, c, (a, d)) =
              with_sync_runs found sync repository git
                (record s { calls = Call.get_sync obj.spec.sync_ref ∷ s.calls })
                (subst (λ x. x.0 ≡ done (runs sync repository git)) w h) in
            (
              e ∙ ap done a,
              subst (λ x. env.conditions.is_ready x.conditions ≡ true) a b,
              subst (λ x. nat_eq x.pull_request_id 0 ≡ false) a c,
              subst (λ x. IsOpen sync repository x.1.calls) (sym w) d,
            )
        | inr (inl (err, e)) ↦ absurd (ground arith)
        | inr (inr e) ↦ absurd (ground arith)
      ]
