-- ===== src/Room/Jobs.antt =====
-- client/src/state/roomReducer.ts: how an update or a completion changes the job of one upload.
use rmcollab_model.Common.{
  ℕ, ◌^◌, min, String, Bool, true, false, ◌&&◌, ◌||◌, Option, none, some, List, [], ◌∷◌, ltb, eqb,
  if◌then◌else◌, ◌==◌,
}
use rmcollab_model.Shared.Domain.{JobStatus, EnhancementJob, MediaItemWithJob, Artifact}
use rmcollab_model.Shared.Events.{
  JsNumber, not_a_number, infinity, finite, JobUpdate, JobCompletion, RunStatus, EndStatus,
  run_status, end_status,
}

-- The number 1, in the units of a job's progress.
unfoldable pub one : ℕ
one = 2 ^ 1074

-- STAGE
abbrev pub stage : JobStatus → ℕ
stage JobStatus.queued = 0
stage JobStatus.processing = 1
stage JobStatus.done = 2
stage JobStatus.failed = 2

-- TERMINAL
abbrev pub is_terminal : JobStatus → Bool
is_terminal JobStatus.done = true
is_terminal JobStatus.failed = true
is_terminal _ = false

unfoldable pub clamp01 : JsNumber → ℕ
clamp01 not_a_number = 0
clamp01 (infinity negative) = 0
clamp01 (finite true size) = 0
clamp01 (finite false size) = min one size

unfoldable pub is_stale : EnhancementJob → String → JobStatus → JsNumber → Bool
is_stale job job_id status progress =
    if job.id == job_id
    then is_terminal job.status
      || ltb (stage status) (stage job.status)
      || (eqb (stage status) (stage job.status) && ltb (clamp01 progress) job.progress)
    else false

-- The first upload with the id has its job replaced.
unfoldable pub patch_job :
    List MediaItemWithJob
    → String
    → (Option EnhancementJob → Option EnhancementJob)
    → List MediaItemWithJob
patch_job [] id patch = []
patch_job (entry ∷ media) id patch =
    if entry.media_item.id == id
    then record { media_item = entry.media_item; job = patch entry.job } ∷ media
    else entry ∷ patch_job media id patch

abbrev pub started : RunStatus → ℕ → Option ℕ
started RunStatus.processing now = some now
started RunStatus.queued now = none

abbrev pub first_of_two : Option ℕ → Option ℕ → Option ℕ
first_of_two none b = b
first_of_two (some a) b = some a

abbrev pub text_or : Option String → Option String → Option String
text_or none b = b
text_or (some a) b = some a

-- The patch of "job_status_update".
unfoldable pub update_job : ℕ → JobUpdate → Option EnhancementJob → Option EnhancementJob
update_job now e none = none
update_job now e (some job) =
    if is_stale job e.job_id (run_status e.status) e.progress
    then some job
    else some (record job {
      id = e.job_id;
      status = run_status e.status;
      progress = clamp01 e.progress;
      message = text_or e.message job.message;
      started_at = first_of_two job.started_at (started e.status now);
    })

abbrev pub done_progress : EndStatus → ℕ → ℕ
done_progress EndStatus.done p = one
done_progress EndStatus.failed p = p

abbrev pub kept_artifacts : List Artifact → List Artifact → List Artifact
kept_artifacts [] old = old
kept_artifacts (a ∷ new) old = a ∷ new

abbrev pub kept_error : EndStatus → Option String → Option String
kept_error EndStatus.done old = none
kept_error EndStatus.failed old = old

-- The patch of "job_complete".
unfoldable pub complete_job : ℕ → JobCompletion → Option EnhancementJob → Option EnhancementJob
complete_job now e none = none
complete_job now e (some job) = some (record job {
  id = e.job_id;
  status = end_status e.status;
  progress = done_progress e.status job.progress;
  artifacts = kept_artifacts e.artifacts job.artifacts;
  message = text_or e.message job.message;
  error = text_or e.error (kept_error e.status job.error);
  completed_at = some now;
})
