-- ===== src/Validating/Gate.antt =====
-- The method shouldRun.
use mpas_product_controller.Base.{String, not, ◌||◌, Option, none, some, if◌then◌else◌, nat_eq}
use mpas_product_controller.Kube.Errors.{Key, Result, wrap, error_text, no_requeue, after}
use mpas_product_controller.Kube.Action.{◌>>=◌, ◌>>◌, pure, fail, on_error, fetch, modify, call}
use mpas_product_controller.Kube.Conditions.{ready_condition}
use mpas_product_controller.Api.{Validation}
use mpas_product_controller.Api.Reasons.{
  project_in_namespace_get_failed, git_repository_clean_up_failed,
}
use mpas_product_controller.Git.{Repository, Sync}
use mpas_product_controller.Project.{project_from_namespace}
use mpas_product_controller.Validating.Env.{
  Call, Env, Run, GitRepository, set_status, on_conditions,
}
use mpas_product_controller.Validating.Tracking.{create_tracker, delete_tracker}

-- What the method returns, with the objects that it fills when it says to run.
pub data Verdict : Type 0 where
  runs : Sync → Repository → GitRepository → Verdict
  stops : Result → Verdict

module _ (env : Env) (product : String) (obj : Validation) where
  open env.conditions use {is_ready, is_true, mark_false, mark_not_ready}

  abbrev waits : Run Verdict
  waits = pure (Verdict.stops (after obj.spec.interval))

  -- The pull request is open.
  unfoldable pub track : Sync → Repository → Option Key → Run Verdict
  unfolding create_tracker
  track sync repository none = do
    ref ←
        on_error (create_tracker env obj product sync.pull_request_id repository)
          (λ e. fail (wrap "failed to create value tracking git repo" e))
    modify (set_status (λ s. record s { git_repository_ref = some ref }))
    pure (Verdict.stops no_requeue)
  track sync repository (some ref) =
      fetch env.is_not_found
        (call (Call.get_git_repository ref) (λ calls. env.get_git_repository calls ref))
        (pure (Verdict.stops no_requeue))
        (wrap "failed to find values file tracking git repository")
        (λ git. pure (Verdict.runs sync repository git))

  -- The pull request is merged or closed.
  unfoldable pub clean_up : Run Verdict
  unfolding delete_tracker
  clean_up = do
    on_error (delete_tracker env obj.status.git_repository_ref) (λ e. do
      on_conditions (mark_not_ready git_repository_clean_up_failed (error_text e))
      fail (wrap "failed to delete GitRepository tracking the values file" e))
    pure (Verdict.stops no_requeue)

  unfoldable pub with_repository : Sync → Repository → Run Verdict
  unfolding clean_up track
  with_repository sync repository =
      if is_true ready_condition obj.status.conditions
      then (do
        merged ←
            on_error
              (call (Call.is_merged_or_closed repository sync)
                (λ calls. env.is_merged_or_closed calls repository sync))
              (λ e. fail (wrap "failed to fetch pull request status" e))
        if merged then clean_up else track sync repository obj.status.git_repository_ref)
      else track sync repository obj.status.git_repository_ref

  unfoldable pub with_ref : Sync → Option Key → Run Verdict
  unfolding with_repository
  with_ref sync none = waits
  with_ref sync (some ref) = do
    repository ← call (Call.get_repository ref) (λ calls. env.get_repository calls ref)
    with_repository sync repository

  unfoldable pub with_sync : Sync → Run Verdict
  unfolding with_ref
  with_sync sync =
      if not (is_ready sync.conditions) || nat_eq sync.pull_request_id 0 then waits else do
        project ←
            on_error
              (project_from_namespace env.projects sync.meta.namespace env.mpas_system_namespace)
              (λ e. do
                on_conditions
                    (mark_false ready_condition project_in_namespace_get_failed (error_text e))
                on_conditions (mark_not_ready project_in_namespace_get_failed (error_text e))
                fail (wrap "failed to find the project in the namespace" e))
        if not (is_ready project.conditions) then waits else with_ref sync project.repository_ref

  unfoldable pub should_run : Run Verdict
  unfolding with_sync
  should_run =
      fetch env.is_not_found
        (call (Call.get_sync obj.spec.sync_ref) (λ calls. env.get_sync calls obj.spec.sync_ref))
        waits (wrap "failed to get owner object") with_sync
