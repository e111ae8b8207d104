-- ===== src/Limits/Window.antt =====
-- gateway/src/limits.ts: the sliding window of `within`, and `retryAfter`. Redis keeps the events of a
-- key in a sorted set, which is a parameter: the record states what its commands are documented to
-- do to the scores, oldest first. The key's own expiry, five seconds after its newest event can still
-- count, drops nothing that `within` would read. Times count from 1970, so that `now` is never less than
-- a window; below it the subtraction here stops at 0.
pub mod Admitted
pub mod Retry
pub mod Tests
use rmcollab_model.Common.{
  ℕ, zero, suc, ◌+◌, ◌-◌, ◌*◌, ◌/◌, ◌≤◌, ◌<◌, ◌≡◌, Bool, true, false, Option, none, some, List, [],
  ◌∷◌, ltb, leb, if◌then◌else◌, filter, length, or_else, max,
}
use rmcollab_model.Common.Sorting.{insert, IsSorted}

abbrev pub get_elem? : List ℕ → ℕ → Option ℕ
get_elem? [] i = none
get_elem? (x ∷ xs) zero = some x
get_elem? (x ∷ xs) (suc i) = get_elem? xs i

-- A sorted set of events, each scored by its time.
pub record EventSet : Type 1 where
  pub Store : Type 0
  pub scores : Store → List ℕ
  -- ZREMRANGEBYSCORE key 0 since
  pub remove_until : ℕ → Store → Store
  -- ZADD key at member, of a new member
  pub add : ℕ → Store → Store
  -- ZCARD key
  pub card : Store → ℕ
  -- ZRANGE key i i WITHSCORES: the score of the event at an index
  pub score_at : Store → ℕ → Option ℕ
  pub sorted : (z : Store) → IsSorted leb (scores z)
  pub remove_until_lem :
      (since : ℕ) (z : Store) → scores (remove_until since z) ≡ filter (λ t. ltb since t) (scores z)
  pub add_lem : (at : ℕ) (z : Store) → scores (add at z) ≡ insert leb at (scores z)
  pub card_lem : (z : Store) → card z ≡ length (scores z)
  pub score_at_lem : (z : Store) (i : ℕ) → score_at z i ≡ get_elem? (scores z) i

-- What `within` answers, in seconds.
pub record Verdict : Type 0 where
  pub ok : Bool
  pub retry_after_s : ℕ

-- `entry` is the event found, `at + windowS * 1000 - now` may be negative: then the wait is 1.
unfoldable pub retry_after : Option ℕ → ℕ → ℕ → ℕ
retry_after entry window_s now = max 1 ((or_else entry now + window_s * 1000 - now + 999) / 1000)

module _ (store : EventSet) where
  open store use {Store, remove_until, add, card, score_at}

  unfoldable pub within : Store → ℕ → ℕ → ℕ → Store × Verdict
  unfolding retry_after
  within z window_s limit now =
      let z' = add now (remove_until (now - window_s * 1000) z) in
      let n = card z' in
      (
        z',
        if leb n limit then record { ok = true; retry_after_s = 0 } else record {
          ok = false;
          retry_after_s = retry_after (score_at z' (n - limit)) window_s now;
        },
      )
