-- ===== src/Queue/Fair/Tests.antt =====
-- Fair order at a concrete queue: one session drops in three jobs, another then one.
use Prim.Native.String
use rmcollab_model.Common.{ℕ, ◌-◌, ◌≤◌, ◌≡◌, refl, String, Bool, List, [], ◌∷◌, ◌++◌, arith, leb}
use mathlib.Core.List.{Perm}
use rmcollab_model.Common.Sorting.{IsOrder, count}
use rmcollab_model.Queue.Fair.{WaitingJob, Ranked, ranked_order, fair_order, get_or_zero}
use rmcollab_model.Queue.Fair.Turns.{fair_order-perm}
use rmcollab_model.Queue.Fair.Share.{fair_share, of_session}

-- Texts compared by length: an order that `localeCompare` could be.
by_length : String → String → Bool
by_length a b = leb (String.len a) (String.len b)

by_length-IsOrder : IsOrder by_length
unfolding by_length
by_length-IsOrder = record { total = λ a b h. ground arith; trans = λ a b c h k. ground arith }

abbrev job : String → String → ℕ → WaitingJob
job id session_id at = record { id = id; session_id = session_id; created_at = at }

abbrev lectures : List WaitingJob
lectures = job "a1" "A" 1 ∷ job "a2" "A" 2 ∷ job "a3" "A" 3 ∷ job "b1" "B" 4 ∷ []

turns_taken :
    fair_order by_length lectures [] []
    ≡ job "a1" "A" 1 ∷ job "b1" "B" 4 ∷ job "a2" "A" 2 ∷ job "a3" "A" 3 ∷ []
unfolding fair_order
turns_taken = refl

fair_order-perm_example : Perm (fair_order by_length lectures [] []) lectures
fair_order-perm_example = fair_order-perm by_length lectures [] []

abbrev turn : WaitingJob → ℕ → Ranked
turn j n = record { job = j; turn = n }

ranked :
    ranked_order by_length lectures [] []
    ≡ (turn (job "a1" "A" 1) 1 ∷ [])
      ++ turn (job "b1" "B" 4) 1 ∷ turn (job "a2" "A" 2) 2 ∷ turn (job "a3" "A" 3) 3 ∷ []
unfolding ranked_order
ranked = refl

fair_share_example : count (of_session "A") (turn (job "a1" "A" 1) 1 ∷ []) ≤ 1 - get_or_zero [] "A"
fair_share_example =
    fair_share by_length lectures [] [] "A" (turn (job "a1" "A" 1) 1 ∷ [])
      (turn (job "a2" "A" 2) 2 ∷ turn (job "a3" "A" 3) 3 ∷ []) (turn (job "b1" "B" 4) 1)
      by_length-IsOrder ranked
