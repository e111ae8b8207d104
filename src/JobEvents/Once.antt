-- ===== src/JobEvents/Once.antt =====
-- gateway/src/jobs/eventConsumer.ts: how often a room is told that a job is complete.
use rmcollab_model.Common.{
  ℕ, zero, suc, ◌+◌, ◌≤◌, ◌≡◌, refl, sym, ◌∙◌, subst, String, Bool, true, false, ◌&&◌, ◌||◌, Option,
  none, some, List, [], ◌∷◌, map, any, any-map, any_mono, if◌then◌else◌, ◌==◌, eq_iff, arith,
  Bool-cases, inl, inr,
}
use rmcollab_model.Common.Sorting.{count}
use rmcollab_model.Shared.Events.{ServerEvent, job_complete}
use rmcollab_model.Room.Jobs.{is_terminal}
use rmcollab_model.JobEvents.{
  JobEvent, StoredJob, Handling, Step, takes, goes_on, take_entry, get_job, nth, without, read_back,
  is_open, apply_event, update_open, update_job_from_event, to_server_event, Output, published,
  finish_job, outputs_of, handle_entry,
}

abbrev pub is_completion : ServerEvent → Bool
is_completion (job_complete room_id c) = true
is_completion e = false

-- The room is told that the job is complete.
abbrev pub is_end : String → Output → Bool
is_end id (published room_id job_id e) = job_id == id && is_completion e
is_end id o = false

-- How often that happens over the steps.
unfoldable pub completions : (String → Bool) → String → Handling → List Step → ℕ
completions exists id h [] = 0
completions exists id h (s ∷ steps) =
    let r = handle_entry exists s h in count (is_end id) r.1 + completions exists id r.0 steps

-- One, while the job is open.
abbrev pub ends_left : String → List StoredJob → ℕ
ends_left id jobs = if any (is_open id) jobs then 1 else 0

open-before :
    (now : ℕ) (e : JobEvent) (id : String) (j : StoredJob)
    → is_open id (update_open now e j) ≡ true
    → is_open id j ≡ true
unfolding apply_event
open-before now e id j h = ground arith

closed-after :
    (now : ℕ) (e : JobEvent) (id : String) (jobs : List StoredJob)
    → e.job_id ≡ id
    → is_terminal e.status ≡ true
    → any (is_open id) (map (update_open now e) jobs) ≡ false
unfolding apply_event
closed-after now e id [] same ended = refl
closed-after now e id (j ∷ jobs) same ended = ground (arith, closed-after now e id jobs same ended)

abbrev is_last : String → JobEvent → Bool
is_last id e = is_terminal e.status && e.job_id == id

-- Read back in whatever state, the row gives rise to the completion of the event's own status.
outputs-end :
    (exists : String → Bool) (id : String) (e : JobEvent) (j : Option StoredJob)
    → count (is_end id) (outputs_of exists e j) ≤ (if is_last id e then 1 else 0)
unfolding to_server_event finish_job
outputs-end exists id e none = ground arith
outputs-end exists id e (some j) = ground arith

if_le_one : (b : Bool) → (if b then 1 else 0) ≤ 1
if_le_one b = ground arith

last-parts :
    (id : String) (e : JobEvent)
    → is_last id e ≡ true
    → (is_terminal e.status ≡ true) × (e.job_id ≡ id)
last-parts id e h = ground (arith, eq_iff e.job_id id)

-- Updating open rows opens none.
any-open-updated :
    (now : ℕ) (e : JobEvent) (id : String) (jobs : List StoredJob)
    → ends_left id (map (update_open now e) jobs) ≤ ends_left id jobs
any-open-updated now e id jobs = elim (Bool-cases (any (is_open id) jobs)) [
  | inl h ↦ rw h (if_le_one _)
  | inr h ↦
      let closed : any (is_open id) (map (update_open now e) jobs) ≡ false =
        elim (Bool-cases (any (is_open id) (map (update_open now e) jobs))) [
          | inl k ↦
              let before =
                any_mono (λ j. is_open id (update_open now e j)) (is_open id) jobs
                  (open-before now e id)
                  (sym (any-map (is_open id) (update_open now e) jobs) ∙ k) in
              cc
          | inr k ↦ k
        ] in
      rw (h, closed) (omega arith)
]

-- The completions that are still to be told, and the one that an open row allows.
abbrev pub to_come : String → Handling → ℕ
to_come id h = count (is_last id) h.updated + ends_left id h.jobs

update-to_come :
    (id : String) (now : ℕ) (jobs : List StoredJob) (es : List JobEvent) (e : JobEvent)
    → count (is_last id) (if any (is_open e.job_id) jobs then e ∷ es else es)
        + ends_left id (map (update_open now e) jobs)
      ≤ count (is_last id) es + ends_left id jobs
update-to_come id now jobs es e = elim (Bool-cases (any (is_open e.job_id) jobs)) [
  | inr h ↦ rw h (omega (arith, any-open-updated now e id jobs))
  | inl h ↦ elim (Bool-cases (is_last id e)) [
    | inr k ↦ rw (h, k) (omega (arith, any-open-updated now e id jobs))
    | inl k ↦
        let (ended, named) = last-parts id e k in
        let was : any (is_open id) jobs ≡ true = subst (λ i. any (is_open i) jobs ≡ true) named h in
        rw (h, k, closed-after now e id jobs named ended, was) (omega arith)
  ]
]

take-to_come :
    (id : String) (now : ℕ) (entry : Option JobEvent) (h : Handling)
    → to_come id (take_entry now entry h) ≤ to_come id h
unfolding take_entry update_job_from_event
take-to_come id now none h = omega arith
take-to_come id now (some e) h = elim (Bool-cases (e.job_id == "" || e.room_id == "")) [
  | inl k ↦ rw (take_entry, k) (omega arith)
  | inr k ↦ rw (take_entry, k) (update-to_come id now h.jobs h.updated e)
]

without-to_come :
    (exists : String → Bool) (id : String) (jobs : List StoredJob) (n : ℕ) (es : List JobEvent)
    → count (is_end id) (read_back exists jobs (nth n es)) + count (is_last id) (without n es)
      ≤ count (is_last id) es
without-to_come exists id jobs n [] = omega arith
without-to_come exists id jobs zero (e ∷ es) =
    omega (arith, outputs-end exists id e (get_job jobs e.job_id))
without-to_come exists id jobs (suc n) (e ∷ es) = omega (arith, without-to_come exists id jobs n es)

step-to_come :
    (exists : String → Bool) (id : String) (s : Step) (h : Handling)
    → count (is_end id) (handle_entry exists s h).1 + to_come id (handle_entry exists s h).0
      ≤ to_come id h
unfolding handle_entry
step-to_come exists id (takes now entry) h = omega (arith, take-to_come id now entry h)
step-to_come exists id (goes_on n) h = omega (arith, without-to_come exists id h.jobs n h.updated)

-- However often and in whatever order the entries of the stream are delivered, and however the
-- replicas' handling of them is mixed, rooms are told that a job is complete no more often than
-- updates that ended it are still to be read back, and once more if its row was not terminal: so from
-- where none is to be read back, at most once, and not at all if the row was terminal.
pub told_complete_once :
    (exists : String → Bool) (id : String) (h : Handling) (steps : List Step)
    → completions exists id h steps ≤ to_come id h
unfolding completions
told_complete_once exists id h [] = omega arith
told_complete_once exists id h (s ∷ steps) =
    let rest = told_complete_once exists id (handle_entry exists s h).0 steps in
    omega (arith, rest, step-to_come exists id s h)
