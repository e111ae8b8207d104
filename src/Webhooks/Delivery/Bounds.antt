-- ===== src/Webhooks/Delivery/Bounds.antt =====
-- gateway/src/webhooks/delivery.ts: how often a delivery is sent, and when it is tried again.
use rmcollab_model.Common.{
  ℕ, ◌+◌, ◌-◌, ◌*◌, ◌/◌, ◌≤◌, ◌<◌, ◌≡◌, Bool, true, false, ◌||◌, Option, none, some, List, [], ◌∷◌,
  if◌then◌else◌, max, arith,
}
use native.Mathlib.Nat.{mul-le-mul_left}
use rmcollab_model.Webhooks.Delivery.{
  Config, Delivery, UrlCheck, AttemptOutcome, Attempt, window_ms, backoff_ms, Effect, sent,
  recorded, scheduled, finish, attempt_delivery,
}

rounded-range :
    (w random : ℕ)
    → random < 9007199254740992
    → (w / 2 ≤ (w * (9007199254740992 + random) + 9007199254740992) / 18014398509481984)
      × ((w * (9007199254740992 + random) + 9007199254740992) / 18014398509481984 ≤ w)
rounded-range w random h =
    let low : w * 9007199254740992 ≤ w * (9007199254740992 + random) =
      mul-le-mul_left w (omega arith) in
    let high : w * (9007199254740992 + random) ≤ w * 18014398509481984 =
      mul-le-mul_left w (omega arith) in
    (omega (arith, low), omega (arith, high))

-- The times that the retries may fall in: the second half of the window, which the cap bounds.
pub backoff_ms-range :
    (c : Config) (attempt random : ℕ)
    → random < 9007199254740992
    → (window_ms c attempt / 2 ≤ backoff_ms c attempt random)
      × (backoff_ms c attempt random ≤ window_ms c attempt)
      × (window_ms c attempt ≤ c.backoff_cap_ms)
unfolding backoff_ms window_ms
backoff_ms-range c attempt random h =
    let (low, high) = rounded-range (window_ms c attempt) random h in (low, high, omega arith)

-- The row after `recordWebhookAttempt`.
unfoldable pub record_attempt : Delivery → Attempt → Delivery
record_attempt d a = record {
  id = d.id;
  attempt = a.attempt;
  terminal = a.terminal;
  delivered = a.delivered;
  endpoint_active = d.endpoint_active;
}

unfoldable pub row_after : Delivery → List Effect → Delivery
unfolding record_attempt
row_after d [] = d
row_after d (recorded a ∷ es) = row_after (record_attempt d a) es
row_after d (_ ∷ es) = row_after d es

abbrev pub is_settled : Delivery → Bool
is_settled d = d.terminal || d.delivered

abbrev pub sends : List Effect → ℕ
sends [] = 0
sends (sent i ∷ es) = 1 + sends es
sends (_ ∷ es) = sends es

-- When the next attempt is due, if one is scheduled.
abbrev pub due : List Effect → Option ℕ
due [] = none
due (scheduled i at ∷ es) = some at
due (_ ∷ es) = due es

abbrev pub is_none {ℓ} : {A : Type ℓ} → Option A → Bool
is_none none = true
is_none (some a) = false

-- What one attempt meets.
pub record Round : Type 0 where
  pub endpoint_active : Bool
  pub check : UrlCheck
  pub outcome : AttemptOutcome
  pub now : ℕ
  pub random : ℕ

abbrev pub attempt_in : Config → Delivery → Round → List Effect
attempt_in c d r =
    attempt_delivery c
      (some (record {
        id = d.id;
        attempt = d.attempt;
        terminal = d.terminal;
        delivered = d.delivered;
        endpoint_active = r.endpoint_active;
      }))
      r.check r.outcome r.now r.random

-- After every attempt, the row is closed for good exactly when no further attempt is scheduled.
pub settled_or_scheduled :
    (c : Config) (d : Delivery) (r : Round)
    → is_settled (row_after d (attempt_in c d r)) ≡ is_none (due (attempt_in c d r))
unfolding attempt_delivery finish row_after record_attempt
settled_or_scheduled c d r = ground arith

-- The requests that a row may still lead to.
abbrev pub budget : Config → Delivery → ℕ
budget c d = if is_settled d then 0 else max 1 (c.max_attempts - d.attempt)

round-budget :
    (c : Config) (d : Delivery) (r : Round)
    → sends (attempt_in c d r) + budget c (row_after d (attempt_in c d r)) ≤ budget c d
unfolding attempt_delivery finish row_after record_attempt
round-budget c d r = ground arith

-- The requests sent over attempts on one row.
unfoldable pub total_sends : Config → Delivery → List Round → ℕ
total_sends c d [] = 0
total_sends c d (r ∷ rs) =
    sends (attempt_in c d r) + total_sends c (row_after d (attempt_in c d r)) rs

-- However often a delivery is attempted, and whatever each attempt meets, no more requests are sent
-- than the row has left: none once it is terminal or delivered, and from a new row at most
-- `max_attempts`, or one if that is 0.
pub total_sends-budget :
    (c : Config) (d : Delivery) (rs : List Round) → total_sends c d rs ≤ budget c d
unfolding total_sends
total_sends-budget c d [] = omega arith
total_sends-budget c d (r ∷ rs) =
    omega (arith, round-budget c d r, total_sends-budget c (row_after d (attempt_in c d r)) rs)
