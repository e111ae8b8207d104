-- ===== src/Queue/Fair.antt =====
-- gateway/src/queue/fair.ts. A `Map` is an association list in which the first entry of a key counts.
-- `localeCompare` is the parameter `locale_le`: its result is at most 0.
pub mod Turns
pub mod Share
mod Tests
use rmcollab_model.Common.{
  ℕ, ◌+◌, String, Bool, true, false, List, [], ◌∷◌, map, eqb, ltb, if◌then◌else◌, ◌==◌,
}
use rmcollab_model.Common.Sorting.{sort}

pub record WaitingJob : Type 0 where
  pub id : String
  pub session_id : String
  pub created_at : ℕ

-- A job and the turn it is ranked at.
pub record Ranked : Type 0 where
  pub job : WaitingJob
  pub turn : ℕ

-- `map.get(key) ?? 0`
abbrev pub get_or_zero : List (String × ℕ) → String → ℕ
get_or_zero [] k = 0
get_or_zero ((j, n) ∷ m) k = if j == k then n else get_or_zero m k

module _ (locale_le : String → String → Bool) where
  -- The order of arrival.
  abbrev pub older : WaitingJob → WaitingJob → Bool
  older a b =
      if eqb a.created_at b.created_at then locale_le a.id b.id else ltb a.created_at b.created_at

  -- The order of service, from when each session was last served.
  abbrev pub goes_before : List (String × ℕ) → Ranked → Ranked → Bool
  goes_before last_served a b =
      if eqb a.turn b.turn
      then (if eqb (get_or_zero last_served a.job.session_id)
            (get_or_zero last_served b.job.session_id)
          then older a.job b.job
          else ltb (get_or_zero last_served a.job.session_id)
              (get_or_zero last_served b.job.session_id))
      else ltb a.turn b.turn

-- The loop that numbers each session's jobs; `nth` is what it has counted so far.
unfoldable pub give_turns : List (String × ℕ) → List (String × ℕ) → List WaitingJob → List Ranked
give_turns in_flight nth [] = []
give_turns in_flight nth (job ∷ jobs) =
    let k = get_or_zero nth job.session_id + 1 in
    record { job = job; turn = get_or_zero in_flight job.session_id + k }
    ∷ give_turns in_flight ((job.session_id, k) ∷ nth) jobs

unfoldable pub ranked_order :
    (String → String → Bool) → List WaitingJob → List (String × ℕ) → List (String × ℕ) → List Ranked
unfolding give_turns
ranked_order locale_le waiting in_flight last_served =
    sort (goes_before locale_le last_served)
      (give_turns in_flight [] (sort (older locale_le) waiting))

unfoldable pub fair_order :
    (String → String → Bool)
    → List WaitingJob
    → List (String × ℕ)
    → List (String × ℕ)
    → List WaitingJob
unfolding ranked_order
fair_order locale_le waiting in_flight last_served =
    map (λ (r : Ranked). r.job) (ranked_order locale_le waiting in_flight last_served)
