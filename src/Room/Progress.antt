-- ===== src/Room/Progress.antt =====
-- client/src/state/roomReducer.ts: what job events do to the jobs on screen.
use rmcollab_model.Common.{
  ℕ, ◌≤◌, ◌<◌, ◌≡◌, refl, ◌≢◌, ◌⊎◌, inl, inr, String, true, Option, none, some, List, [], ◌∷◌, ◌==◌,
  eq_iff, arith, All, Pointwise, Pointwise-refl, Bool-cases,
}
use rmcollab_model.Shared.Domain.{EnhancementJob, MediaItemWithJob}
use rmcollab_model.Shared.Events.{job_status_update, job_complete, JobUpdate, JobCompletion}
use rmcollab_model.Room.State.{RoomState}
use rmcollab_model.Room.Jobs.{
  one, stage, is_terminal, update_job, complete_job, is_stale, patch_job,
}
use rmcollab_model.Room.Apply.{update_job_of, complete_job_of}
use rmcollab_model.Room.Reducer.{apply_server_event, apply_with, apply_case}

-- The second job is another run, or the same run no further back than the first.
abbrev pub Advances : EnhancementJob → EnhancementJob → Type 0
Advances a b =
    (a.id ≢ b.id)
    ⊎ ((stage a.status < stage b.status)
        ⊎ ((stage a.status ≡ stage b.status) × (a.progress ≤ b.progress)))

abbrev pub JobAdvances : Option EnhancementJob → Option EnhancementJob → Type 0
JobAdvances none none = Unit {0}
JobAdvances (some a) (some b) = Advances a b
JobAdvances _ _ = ⊥

-- The same upload, with a job that has not gone back.
abbrev pub EntryAdvances : MediaItemWithJob → MediaItemWithJob → Type 0
EntryAdvances x y = (x.media_item ≡ y.media_item) × JobAdvances x.job y.job

update_job-Advances :
    (now : ℕ) (e : JobUpdate) (job : Option EnhancementJob) → JobAdvances job (update_job now e job)
unfolding update_job is_stale
update_job-Advances now e none = tt
update_job-Advances now e (some job) = elim (Bool-cases (job.id == e.job_id)) [
  | inl same ↦ ground (arith, eq_iff job.id e.job_id)
  | inr other ↦ ground (arith, eq_iff job.id e.job_id)
]

-- No more than all of a job is done.
abbrev pub IsBounded : Option EnhancementJob → Type 0
IsBounded none = Unit {0}
IsBounded (some job) = job.progress ≤ one

complete_job-Advances :
    (now : ℕ) (e : JobCompletion) (job : Option EnhancementJob)
    → IsBounded job
    → JobAdvances job (complete_job now e job)
unfolding complete_job
complete_job-Advances now e none h = tt
complete_job-Advances now e (some job) h = ground arith

JobAdvances-refl : (job : Option EnhancementJob) → JobAdvances job job
JobAdvances-refl none = tt
JobAdvances-refl (some job) = inr (inr (refl, omega arith))

EntryAdvances-refl : (x : MediaItemWithJob) → EntryAdvances x x
EntryAdvances-refl x = (refl, JobAdvances-refl x.job)

patch_job-Advances :
    (id : String) (patch : Option EnhancementJob → Option EnhancementJob)
    (media : List MediaItemWithJob)
    → All (λ (x : MediaItemWithJob). JobAdvances x.job (patch x.job)) media
    → Pointwise EntryAdvances media (patch_job media id patch)
unfolding patch_job
patch_job-Advances id patch [] h = tt
patch_job-Advances id patch (x ∷ media) h = elim (Bool-cases (x.media_item.id == id)) [
  | inl hit ↦ rw hit ((refl, h.0), Pointwise-refl EntryAdvances EntryAdvances-refl media)
  | inr miss ↦ rw miss (EntryAdvances-refl x, patch_job-Advances id patch media h.1)
]

update-All :
    (now : ℕ) (e : JobUpdate) (media : List MediaItemWithJob)
    → All (λ (x : MediaItemWithJob). JobAdvances x.job (update_job now e x.job)) media
update-All now e [] = tt
update-All now e (x ∷ media) = (update_job-Advances now e x.job, update-All now e media)

complete-All :
    (now : ℕ) (e : JobCompletion) (media : List MediaItemWithJob)
    → All (λ (x : MediaItemWithJob). IsBounded x.job) media
    → All (λ (x : MediaItemWithJob). JobAdvances x.job (complete_job now e x.job)) media
complete-All now e [] h = tt
complete-All now e (x ∷ media) h =
    (complete_job-Advances now e x.job h.0, complete-All now e media h.1)

unchanged : (media : List MediaItemWithJob) → Pointwise EntryAdvances media media
unchanged = Pointwise-refl EntryAdvances EntryAdvances-refl

-- An update of a job, held or applied, leaves every upload in its place, and no job goes back: its
-- run is another one, or its stage is later, or its stage is the same with as much progress.
pub update-Advances :
    (now : ℕ) (s : RoomState) (room_id : String) (e : JobUpdate)
    → Pointwise EntryAdvances s.media (apply_server_event now s (job_status_update room_id e)).media
unfolding apply_server_event apply_with apply_case update_job_of
update-Advances now s room_id e = ground (
  arith,
  unchanged s.media,
  patch_job-Advances e.media_item_id (update_job now e) s.media (update-All now e s.media),
)

-- Where no job on screen shows more progress than 1, a completion, held or applied, leaves every
-- upload in its place, and no job goes back: its run is another one, or its stage is later, or its
-- stage is the same with as much progress.
pub completion-Advances :
    (now : ℕ) (s : RoomState) (room_id : String) (e : JobCompletion)
    → All (λ (x : MediaItemWithJob). IsBounded x.job) s.media
    → Pointwise EntryAdvances s.media (apply_server_event now s (job_complete room_id e)).media
unfolding apply_server_event apply_with apply_case complete_job_of
completion-Advances now s room_id e h = ground (
  arith,
  unchanged s.media,
  patch_job-Advances e.media_item_id (complete_job now e) s.media (complete-All now e s.media h),
)

-- A finished job is not touched by a later update of the same run.
pub finished_stays :
    (now : ℕ) (job : EnhancementJob) (e : JobUpdate)
    → job.id ≡ e.job_id
    → is_terminal job.status ≡ true
    → update_job now e (some job) ≡ some job
unfolding update_job is_stale
finished_stays now job e same ended = ground (arith, eq_iff job.id e.job_id)
