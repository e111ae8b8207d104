-- ===== src/JobEvents/Tests.antt =====
-- A job whose end is delivered twice, with another replica at work on it.
use rmcollab_model.Common.{
  ◌++◌, ◌≤◌, ◌≡◌, refl, Bool, true, false, Option, none, some, List, [], ◌∷◌,
}
use rmcollab_model.Common.Sorting.{count}
use rmcollab_model.Shared.Domain.{JobStatus}
use rmcollab_model.Shared.Events.{finite}
use rmcollab_model.JobEvents.{
  JobEvent, StoredJob, Handling, Step, takes, goes_on, Output, notes_filled, apply_event,
  handle_entry,
}
use rmcollab_model.JobEvents.Once.{completions, told_complete_once}

abbrev running : StoredJob
running = record {
  id = "j";
  media_item_id = "m";
  status = JobStatus.processing;
  progress = finite false 0;
  message = none;
  error = none;
  strategy = "auto";
  attempt_count = 1;
  started_at = some 10;
  completed_at = none;
  artifacts = [];
}

abbrev event : JobStatus → Option JobEvent
event status = some (record {
  job_id = "j";
  media_item_id = "m";
  room_id = "r";
  strategy = some "classical";
  status = status;
  progress = finite false 0;
  message = none;
  artifacts = [];
  error = none;
  emitted_at = 20;
})

-- One replica takes a progress event, another the end of the job, before either reads the row back.
abbrev mixed : List Step
mixed =
    takes 21 (event JobStatus.processing)
    ∷ takes 22 (event JobStatus.done)
    ∷ takes 23 (event JobStatus.done)
    ∷ goes_on 1
    ∷ goes_on 0
    ∷ []

abbrev at_start : Handling
at_start = record { jobs = running ∷ []; updated = [] }

-- Both then find the job done, and fill its notes.
abbrev fills : Output → Bool
fills (notes_filled id) = true
fills o = false

abbrev outputs : Handling → List Step → List Output
outputs h [] = []
outputs h (s ∷ steps) = let r = handle_entry (λ item. true) s h in r.1 ++ outputs r.0 steps

filled_twice : count fills (outputs at_start mixed) ≡ 2
unfolding handle_entry apply_event
filled_twice = refl

told_once : completions (λ item. true) "j" at_start mixed ≡ 1
unfolding completions handle_entry apply_event
told_once = refl

told_complete_once_example : completions (λ item. true) "j" at_start mixed ≤ 1
told_complete_once_example = told_complete_once (λ item. true) "j" at_start mixed
