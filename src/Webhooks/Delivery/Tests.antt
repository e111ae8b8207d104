-- ===== src/Webhooks/Delivery/Tests.antt =====
-- A delivery to an endpoint that answers 503, then 200.
use rmcollab_model.Common.{ℕ, ◌/◌, ◌≤◌, ◌≡◌, refl, true, false, none, [], ◌∷◌, arith}
use rmcollab_model.Webhooks.Delivery.{
  Config, Delivery, window_ms, backoff_ms, outcome_of, answered, attempt_delivery, finish,
}
use rmcollab_model.Webhooks.Delivery.Bounds.{
  Round, row_after, attempt_in, is_settled, is_none, due, total_sends, budget, backoff_ms-range,
  settled_or_scheduled, total_sends-budget, record_attempt,
}

abbrev config : Config
config = record { max_attempts = 6; backoff_base_ms = 2000; backoff_cap_ms = 600000 }

abbrev new : Delivery
new = record { id = "d"; attempt = 0; terminal = false; delivered = false; endpoint_active = true }

abbrev round : ℕ → Round
round status = record {
  endpoint_active = true;
  check = record { ok = true; reason = none };
  outcome = outcome_of (λ code body. body) (λ latency. "timeout") 12 (answered status "");
  now = 1000;
  random = 0;
}

-- The second attempt delivers, and a third sends nothing.
two_sent : total_sends config new (round 503 ∷ round 200 ∷ round 200 ∷ []) ≡ 2
unfolding total_sends row_after record_attempt attempt_delivery finish outcome_of backoff_ms
    window_ms
two_sent = refl

backoff_ms-range_example :
    (window_ms config 3 / 2 ≤ backoff_ms config 3 5)
    × (backoff_ms config 3 5 ≤ window_ms config 3)
    × (window_ms config 3 ≤ 600000)
backoff_ms-range_example = backoff_ms-range config 3 5 (omega arith)

settled_or_scheduled_example :
    is_settled (row_after new (attempt_in config new (round 503)))
    ≡ is_none (due (attempt_in config new (round 503)))
settled_or_scheduled_example = settled_or_scheduled config new (round 503)

total_sends-budget_example : total_sends config new (round 503 ∷ round 200 ∷ []) ≤ budget config new
total_sends-budget_example = total_sends-budget config new (round 503 ∷ round 200 ∷ [])
