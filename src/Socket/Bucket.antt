-- ===== src/Socket/Bucket.antt =====
-- gateway/src/ws/rateLimit.ts. Tokens are counted in parts of 2000, and the rate in half tokens a
-- second, so that one millisecond adds as many parts as the rate is; the rounding of floating-point
-- sums is left out. A clock that goes back makes the tokens fewer, and negative at last, so they are
-- kept as a difference: `plus` less `minus`.
pub mod Granted
mod Tests
use rmcollab_model.Common.{ℕ, ◌+◌, ◌*◌, Bool, true, false, ltb, if◌then◌else◌}

pub record TokenBucket : Type 0 where
  pub capacity : ℕ
  pub rate : ℕ
  pub plus : ℕ
  pub minus : ℕ
  pub last : ℕ

-- The parts of a token.
abbrev pub parts : ℕ
parts = 2000

unfoldable pub token_bucket : ℕ → ℕ → ℕ → TokenBucket
token_bucket capacity half_tokens_per_second now = record {
  capacity = capacity * parts;
  rate = half_tokens_per_second;
  plus = capacity * parts;
  minus = 0;
  last = now;
}

-- The bucket after the time that has passed.
unfoldable pub refill : TokenBucket → ℕ → TokenBucket
refill b now =
    let plus = b.plus + now * b.rate in
    let minus = b.minus + b.last * b.rate in
    if ltb (minus + b.capacity) plus
    then record b { plus = b.capacity; minus = 0; last = now }
    else record b { plus = plus; minus = minus; last = now }

-- `take`, of a cost in tokens.
unfoldable pub take_tokens : TokenBucket → ℕ → ℕ → TokenBucket × Bool
unfolding refill
take_tokens b cost now =
    let r = refill b now in
    if ltb r.plus (r.minus + cost * parts)
    then (r, false)
    else (record r { minus = r.minus + cost * parts }, true)

pub record SocketLimits : Type 0 where
  pub chat : TokenBucket
  pub typing : TokenBucket
  pub joins : TokenBucket
  pub doc_frames : TokenBucket
  pub doc_bytes : TokenBucket

unfoldable pub socket_limits : ℕ → SocketLimits
unfolding token_bucket
socket_limits now = record {
  chat = token_bucket 10 2 now;
  typing = token_bucket 20 8 now;
  joins = token_bucket 10 1 now;
  doc_frames = token_bucket 3000 600 now;
  doc_bytes = token_bucket (16 * 1024 * 1024) (4 * 1024 * 1024) now;
}
