-- ===== src/Queue/Fair/Turns.antt =====
-- gateway/src/queue/fair.ts: which turns a session's jobs get, and that no job is lost.
use rmcollab_model.Common.{
  ℕ, ◌+◌, ◌-◌, ◌≤◌, ◌≡◌, refl, String, Bool, List, [], ◌∷◌, map, arith, eq_iff, leb, ◌&&◌, ◌==◌,
}
use mathlib.Core.List.{Perm}
use mathlib.Core.List.Perm
use rmcollab_model.Common.Sorting.{sort, sort-perm, count, count-sort}
use rmcollab_model.Queue.Fair.{
  WaitingJob, Ranked, get_or_zero, older, goes_before, give_turns, ranked_order, fair_order,
}

give_turns-jobs :
    (in_flight nth : List (String × ℕ)) (jobs : List WaitingJob)
    → map (λ (r : Ranked). r.job) (give_turns in_flight nth jobs) ≡ jobs
unfolding give_turns
give_turns-jobs in_flight nth [] = refl
give_turns-jobs in_flight nth (job ∷ jobs) =
    rw (give_turns-jobs in_flight ((job.session_id, get_or_zero nth job.session_id + 1) ∷ nth) jobs)

-- The result holds the waiting jobs, each as often: none is dropped or made up.
pub fair_order-perm :
    (locale_le : String → String → Bool) (waiting : List WaitingJob)
    (in_flight last_served : List (String × ℕ))
    → Perm (fair_order locale_le waiting in_flight last_served) waiting
unfolding fair_order
fair_order-perm locale_le waiting in_flight last_served =
    Perm.trans
      (Perm.map (λ (r : Ranked). r.job)
        (sort-perm (goes_before locale_le last_served)
          (give_turns in_flight [] (sort (older locale_le) waiting))))
      (rw (give_turns-jobs in_flight [] (sort (older locale_le) waiting))
        (sort-perm (older locale_le) waiting))

-- A job of the session, at the turn or before.
abbrev pub within_turn : String → ℕ → Ranked → Bool
within_turn session_id b r = (r.job.session_id == session_id) && leb r.turn b

-- Turns are given one by one from the first after those in flight and those counted.
give_turns-count :
    (in_flight nth : List (String × ℕ)) (jobs : List WaitingJob) (session_id : String) (b : ℕ)
    → count (within_turn session_id b) (give_turns in_flight nth jobs)
      ≤ b - (get_or_zero in_flight session_id + get_or_zero nth session_id)
unfolding give_turns
give_turns-count in_flight nth [] session_id b = omega arith
give_turns-count in_flight nth (job ∷ jobs) session_id b =
    let ih =
      give_turns-count in_flight ((job.session_id, get_or_zero nth job.session_id + 1) ∷ nth) jobs
        session_id b in
    ground (arith, ih, eq_iff job.session_id session_id)

-- Of a session with n jobs in flight, at most b - n jobs get a turn up to b.
pub turns_counted :
    (locale_le : String → String → Bool) (waiting : List WaitingJob)
    (in_flight last_served : List (String × ℕ)) (session_id : String) (b : ℕ)
    → count (within_turn session_id b) (ranked_order locale_le waiting in_flight last_served)
      ≤ b - get_or_zero in_flight session_id
unfolding ranked_order
turns_counted locale_le waiting in_flight last_served session_id b = omega (
  arith,
  count-sort (within_turn session_id b) (goes_before locale_le last_served)
      (give_turns in_flight [] (sort (older locale_le) waiting)),
  give_turns-count in_flight [] (sort (older locale_le) waiting) session_id b,
)
