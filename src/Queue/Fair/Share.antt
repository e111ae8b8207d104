-- ===== src/Queue/Fair/Share.antt =====
-- gateway/src/queue/fair.ts: how many jobs of a session can go before a job of another.
use rmcollab_model.Common.{
  ℕ, ◌-◌, ◌≤◌, ◌≡◌, String, Bool, true, List, [], ◌∷◌, ◌++◌, arith, ◌==◌, All,
}
use rmcollab_model.Common.Sorting.{sort, count, count-append, IsOrder, IsSorted, sort-IsSorted}
use rmcollab_model.Queue.Fair.{
  WaitingJob, Ranked, get_or_zero, older, goes_before, give_turns, ranked_order,
}
use rmcollab_model.Queue.Fair.Turns.{within_turn, turns_counted}

module _ (locale_le : String → String → Bool) (order : IsOrder locale_le) where
  older-IsOrder : IsOrder (older locale_le)
  older-IsOrder = record {
    total = λ a b h. ground (arith, order.total a.id b.id);
    trans = λ a b c h k. ground (arith, order.trans a.id b.id c.id);
  }

  goes_before-IsOrder : (served : List (String × ℕ)) → IsOrder (goes_before locale_le served)
  goes_before-IsOrder served = record {
    total = λ a b h. ground (arith, order.total a.job.id b.job.id);
    trans = λ a b c h k. ground (arith, order.trans a.job.id b.job.id c.job.id);
  }

-- What goes before an element of a sorted list is at most that element.
sorted_before :
    (le : Ranked → Ranked → Bool) (before : List Ranked) (x : Ranked) (after : List Ranked)
    → IsSorted le (before ++ x ∷ after)
    → All (λ (r : Ranked). le r x ≡ true) before
sorted_before le [] x after s = tt
sorted_before le (r ∷ before) x after s = (middle before s.0, sorted_before le before x after s.1)
  where
    middle :
        (rs : List Ranked) → All (λ (q : Ranked). le r q ≡ true) (rs ++ x ∷ after) → le r x ≡ true
    middle [] a = a.0
    middle (q ∷ rs) a = middle rs a.1

abbrev pub of_session : String → Ranked → Bool
of_session session_id r = r.job.session_id == session_id

before_within :
    (locale_le : String → String → Bool) (served : List (String × ℕ)) (session_id : String)
    (x : Ranked) (rs : List Ranked)
    → All (λ (r : Ranked). goes_before locale_le served r x ≡ true) rs
    → count (of_session session_id) rs ≤ count (within_turn session_id x.turn) rs
before_within locale_le served session_id x [] a = omega arith
before_within locale_le served session_id x (r ∷ rs) a =
    let first = a.0 in ground (arith, before_within locale_le served session_id x rs a.1)

-- No session crowds out another: before a job at turn b, at most b - n jobs of a session that has n
-- jobs in flight are served, if the locale's order is one.
pub fair_share :
    (locale_le : String → String → Bool) (waiting : List WaitingJob)
    (in_flight last_served : List (String × ℕ)) (session_id : String) (before after : List Ranked)
    (x : Ranked)
    → IsOrder locale_le
    → ranked_order locale_le waiting in_flight last_served ≡ before ++ x ∷ after
    → count (of_session session_id) before ≤ x.turn - get_or_zero in_flight session_id
unfolding ranked_order
fair_share locale_le waiting in_flight last_served session_id before after x order e =
    let le = goes_before locale_le last_served in
    let sorted = rw e at (
      sort-IsSorted le (goes_before-IsOrder locale_le order last_served)
        (give_turns in_flight [] (sort (older locale_le) waiting))) in
    let all_before = sorted_before le before x after sorted in
    let counted =
      rw e at (turns_counted locale_le waiting in_flight last_served session_id x.turn) in
    omega (
      arith,
      before_within locale_le last_served session_id x before all_before,
      count-append (within_turn session_id x.turn) before (x ∷ after),
      counted,
    )
