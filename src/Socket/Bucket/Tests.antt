-- ===== src/Socket/Bucket/Tests.antt =====
-- The bucket of chat messages: ten at once, then one a second.
use rmcollab_model.Common.{ℕ, ◌+◌, ◌-◌, ◌*◌, ◌≤◌, ◌≡◌, refl, [], ◌∷◌, arith}
use rmcollab_model.Socket.Bucket.{token_bucket, refill, take_tokens, parts}
use rmcollab_model.Socket.Bucket.Granted.{Take, granted, granted_bounded, burst_granted}

abbrev message : ℕ → Take
message at = record { cost = 6; at = at }

-- The second of two messages of six tokens is refused, and the third, four seconds later, is not.
two_of_three :
    granted (token_bucket 10 2 1000) (message 1000 ∷ message 3000 ∷ message 5000 ∷ []) ≡ 12
unfolding granted token_bucket refill take_tokens
two_of_three = refl

granted_bounded_example :
    granted (token_bucket 10 2 1000) (message 1000 ∷ message 3000 ∷ message 5000 ∷ []) * parts
    ≤ 10 * parts + (5000 - 1000) * 2
granted_bounded_example =
    granted_bounded 10 2 1000 5000 (message 1000 ∷ message 3000 ∷ message 5000 ∷ []) (omega arith)

burst_granted_example : granted (token_bucket 10 2 1000) (message 1000 ∷ []) ≡ 6
burst_granted_example = burst_granted 10 2 1000 1000 (message 1000 ∷ []) (omega arith) (omega arith)
