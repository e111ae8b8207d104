-- ===== src/JobEvents.antt =====
-- gateway/src/jobs/eventConsumer.ts, and `updateJobFromEvent` of gateway/src/db/repositories.ts: a
-- worker's events applied to the job rows, and what each gives rise to. The artifacts of an event
-- stand as they are read back from their rows. An entry that holds no event, or text that is no event,
-- is none; it is acknowledged like any other. Replicas handle entries at the same time: between the
-- update of a job's row and its reading back, others may update it. A call that throws, which skips
-- the rest of its entry, is not modelled.
pub mod Once
mod Tests
use rmcollab_model.Common.{
  ℕ, ◌+◌, String, Bool, true, false, ◌&&◌, ◌||◌, not, Option, none, some, List, [], ◌∷◌, ◌++◌, map,
  zero, suc, any, find?, eqb, if◌then◌else◌, ◌==◌, or_else,
}
use rmcollab_model.Shared.Domain
use rmcollab_model.Shared.Domain.{JobStatus, Artifact}
use rmcollab_model.Shared.Events.{
  JsNumber, RunStatus, EndStatus, ServerEvent, job_status_update, job_complete,
}
use rmcollab_model.Room.Jobs.{is_terminal}

pub record JobEvent : Type 0 where
  pub job_id : String
  pub media_item_id : String
  pub room_id : String
  pub strategy : Option String
  pub status : JobStatus
  pub progress : JsNumber
  pub message : Option String
  pub artifacts : List Artifact
  pub error : Option String
  pub emitted_at : ℕ

-- A row of enhancement_jobs, with those of job_artifacts that name it.
pub record StoredJob : Type 0 where
  pub id : String
  pub media_item_id : String
  pub status : JobStatus
  pub progress : JsNumber
  pub message : Option String
  pub error : Option String
  pub strategy : String
  pub attempt_count : ℕ
  pub started_at : Option ℕ
  pub completed_at : Option ℕ
  pub artifacts : List Artifact

abbrev is_processing : JobStatus → Bool
is_processing JobStatus.processing = true
is_processing s = false

abbrev is_queued : JobStatus → Bool
is_queued JobStatus.queued = true
is_queued s = false

-- COALESCE
abbrev coalesce : Option String → Option String → Option String
coalesce none old = old
coalesce (some new) old = some new

abbrev started : Option ℕ → JobStatus → ℕ → Option ℕ
started none status now = if is_queued status then none else some now
started (some at) status now = some at

-- `emittedAt || Date.now()`
abbrev time_of : JobEvent → ℕ → ℕ
time_of e now = if eqb e.emitted_at 0 then now else e.emitted_at

-- WHERE id = $1 AND status NOT IN ('done', 'failed')
abbrev pub is_open : String → StoredJob → Bool
is_open job_id j = j.id == job_id && not (is_terminal j.status)

unfoldable pub apply_event : ℕ → JobEvent → StoredJob → StoredJob
apply_event now e j = record {
  id = j.id;
  media_item_id = j.media_item_id;
  status = e.status;
  progress = e.progress;
  message = coalesce e.message j.message;
  error = coalesce e.error j.error;
  strategy = or_else e.strategy j.strategy;
  attempt_count =
      if is_processing e.status && not (is_processing j.status)
      then j.attempt_count + 1
      else j.attempt_count;
  started_at = started j.started_at e.status (time_of e now);
  completed_at = if is_terminal e.status then some (time_of e now) else j.completed_at;
  artifacts = j.artifacts ++ e.artifacts;
}

abbrev pub update_open : ℕ → JobEvent → StoredJob → StoredJob
update_open now e j = if is_open e.job_id j then apply_event now e j else j

-- The UPDATE with the insertion of the artifacts, and whether a row was updated.
unfoldable pub update_job_from_event : ℕ → List StoredJob → JobEvent → List StoredJob × Bool
unfolding apply_event
update_job_from_event now jobs e = (map (update_open now e) jobs, any (is_open e.job_id) jobs)

-- `getJob`, which the handler of an entry that updated a row ends its update with
unfoldable pub get_job : List StoredJob → String → Option StoredJob
get_job jobs job_id = find? (λ (j : StoredJob). j.id == job_id) jobs

-- An empty text is left out.
abbrev pub unless_empty : Option String → Option String
unless_empty none = none
unless_empty (some t) = if t == "" then none else some t

unfoldable pub to_server_event : JobEvent → List Artifact → ServerEvent
to_server_event e artifacts = elim e.status [
  | JobStatus.done ↦ job_complete e.room_id (record {
    job_id = e.job_id;
    media_item_id = e.media_item_id;
    status = EndStatus.done;
    artifacts = artifacts;
    message = unless_empty e.message;
    error = unless_empty e.error;
  })
  | JobStatus.failed ↦ job_complete e.room_id (record {
    job_id = e.job_id;
    media_item_id = e.media_item_id;
    status = EndStatus.failed;
    artifacts = artifacts;
    message = unless_empty e.message;
    error = unless_empty e.error;
  })
  | JobStatus.queued ↦ job_status_update e.room_id (record {
    job_id = e.job_id;
    media_item_id = e.media_item_id;
    status = RunStatus.queued;
    progress = e.progress;
    message = unless_empty e.message;
  })
  | JobStatus.processing ↦ job_status_update e.room_id (record {
    job_id = e.job_id;
    media_item_id = e.media_item_id;
    status = RunStatus.processing;
    progress = e.progress;
    message = unless_empty e.message;
  })
]

-- What an entry gives rise to, beside the rows.
pub data Output : Type 0 where
  published : (room_id : String) → (job_id : String) → ServerEvent → Output
  notes_filled : (job_id : String) → Output
  indexing_started : (job_id : String) → Output

-- The part of `handleEntry` after the event is published. The test says which uploads still exist.
unfoldable pub finish_job : (String → Bool) → StoredJob → List Output
finish_job exists j =
    let notes = if exists j.media_item_id then notes_filled j.id ∷ [] else [] in
    elim j.status [
      | JobStatus.done ↦ notes ++ indexing_started j.id ∷ []
      | JobStatus.failed ↦ notes
      | _ ↦ []
    ]

abbrev pub outputs_of : (String → Bool) → JobEvent → Option StoredJob → List Output
outputs_of exists e none = []
outputs_of exists e (some j) =
    published e.room_id e.job_id (to_server_event e j.artifacts) ∷ finish_job exists j

-- The rows, and the events whose handlers have updated a row and are still to read it back.
pub record Handling : Type 0 where
  pub jobs : List StoredJob
  pub updated : List JobEvent

-- What the replicas do: one takes an entry and updates a row, or one reads a row back and goes on.
pub data Step : Type 0 where
  takes : (now : ℕ) → Option JobEvent → Step
  goes_on : (n : ℕ) → Step

unfoldable pub take_entry : ℕ → Option JobEvent → Handling → Handling
unfolding update_job_from_event
take_entry now none h = h
take_entry now (some e) h =
    if e.job_id == "" || e.room_id == ""
    then h
    else (let r = update_job_from_event now h.jobs e in
        record { jobs = r.0; updated = if r.1 then e ∷ h.updated else h.updated })

abbrev pub nth : ℕ → List JobEvent → Option JobEvent
nth n [] = none
nth zero (e ∷ es) = some e
nth (suc n) (e ∷ es) = nth n es

abbrev pub without : ℕ → List JobEvent → List JobEvent
without n [] = []
without zero (e ∷ es) = es
without (suc n) (e ∷ es) = e ∷ without n es

abbrev pub read_back : (String → Bool) → List StoredJob → Option JobEvent → List Output
read_back exists jobs none = []
read_back exists jobs (some e) = outputs_of exists e (get_job jobs e.job_id)

-- `handleEntry`, in the two parts that others' work may come between
unfoldable pub handle_entry : (String → Bool) → Step → Handling → Handling × List Output
unfolding take_entry to_server_event finish_job get_job
handle_entry exists (takes now entry) h = (take_entry now entry h, [])
handle_entry exists (goes_on n) h =
    (record h { updated = without n h.updated }, read_back exists h.jobs (nth n h.updated))
