-- ===== src/Webhooks/Delivery.antt =====
-- gateway/src/webhooks/delivery.ts: `backoffMs` and `attemptDelivery`. The request itself, the check
-- of the URL and the clock are inputs. `Math.random()` is a number of 2 ^ -53 parts, given as how many
-- of them; the rounding of floating-point products is left out.
pub mod Bounds
mod Tests
use rmcollab_model.Common.{
  ℕ, zero, suc, ◌+◌, ◌-◌, ◌*◌, ◌/◌, ◌^◌, ◌≤◌, ◌<◌, ◌≡◌, String, Bool, true, false, ◌&&◌, ◌||◌, not,
  Option, none, some, List, [], ◌∷◌, leb, eqb, if◌then◌else◌, min, or_else,
}
use Prim.Native.String

pub record Config : Type 0 where
  pub max_attempts : ℕ
  pub backoff_base_ms : ℕ
  pub backoff_cap_ms : ℕ

-- What `getPendingWebhookDelivery` reads.
pub record Delivery : Type 0 where
  pub id : String
  pub attempt : ℕ
  pub terminal : Bool
  pub delivered : Bool
  pub endpoint_active : Bool

pub record UrlCheck : Type 0 where
  pub ok : Bool
  pub reason : Option String

pub record AttemptOutcome : Type 0 where
  pub status_code : Option ℕ
  pub error : Option String
  pub latency_ms : ℕ
  pub delivered : Bool
  pub retryable : Bool

-- What the receiver answered, or that the request failed.
pub data Response : Type 0 where
  answered : (status : ℕ) → (body : String) → Response
  timed_out : Response
  threw : (message : String) → Response

-- The argument of `recordWebhookAttempt`.
pub record Attempt : Type 0 where
  pub id : String
  pub attempt : ℕ
  pub status_code : Option ℕ
  pub error : Option String
  pub latency_ms : Option ℕ
  pub delivered : Bool
  pub terminal : Bool
  pub next_attempt_at : Option ℕ

unfoldable pub window_ms : Config → ℕ → ℕ
window_ms c attempt = min c.backoff_cap_ms (c.backoff_base_ms * 2 ^ (attempt - 1))

-- `Math.round(window / 2 + random * (window / 2))`
unfoldable pub backoff_ms : Config → ℕ → ℕ → ℕ
backoff_ms c attempt random =
    (window_ms c attempt * (9007199254740992 + random) + 9007199254740992) / 18014398509481984

-- `send`, from the answer on. The text of an error is a parameter.
unfoldable pub outcome_of : (ℕ → String → String) → (ℕ → String) → ℕ → Response → AttemptOutcome
outcome_of http_error timeout_error latency (answered status body) =
    if leb 200 status && leb status 299
    then record {
      status_code = some status;
      error = none;
      latency_ms = latency;
      delivered = true;
      retryable = false;
    }
    else record {
      status_code = some status;
      error = some (http_error status body);
      latency_ms = latency;
      delivered = false;
      retryable = eqb status 429 || leb 500 status;
    }
outcome_of http_error timeout_error latency timed_out = record {
  status_code = none;
  error = some (timeout_error latency);
  latency_ms = latency;
  delivered = false;
  retryable = true;
}
outcome_of http_error timeout_error latency (threw message) = record {
  status_code = none;
  error = some message;
  latency_ms = latency;
  delivered = false;
  retryable = true;
}

-- What an attempt does: it may read nothing to do, record a failure for good without sending, or
-- send, record and perhaps schedule the next attempt.
pub data Effect : Type 0 where
  sent : (delivery_id : String) → Effect
  recorded : Attempt → Effect
  scheduled : (delivery_id : String) → (due_at : ℕ) → Effect

abbrev fail : Delivery → String → List Effect
fail d message =
    recorded (record {
      id = d.id;
      attempt = d.attempt + 1;
      status_code = none;
      error = some message;
      latency_ms = none;
      delivered = false;
      terminal = true;
      next_attempt_at = none;
    })
    ∷ []

abbrev schedule : String → Option ℕ → List Effect
schedule id none = []
schedule id (some at) = scheduled id at ∷ []

abbrev will_retry : Config → ℕ → AttemptOutcome → Bool
will_retry c attempt o = not o.delivered && o.retryable && not (leb c.max_attempts attempt)

abbrev error_of : Config → ℕ → AttemptOutcome → Option String
error_of c attempt o =
    if o.delivered
    then none
    else (if o.retryable && leb c.max_attempts attempt
        then some (String.◌++◌ (or_else o.error "delivery failed") " (retries exhausted)")
        else some (or_else o.error "delivery failed"))

abbrev next_at : Config → ℕ → ℕ → ℕ → Bool → Option ℕ
next_at c attempt now random true = some (now + backoff_ms c attempt random)
next_at c attempt now random false = none

-- The part of `attemptDelivery` after the request.
unfoldable pub finish : Config → Delivery → AttemptOutcome → ℕ → ℕ → List Effect
finish c d o now random =
    let attempt = d.attempt + 1 in
    let retry = will_retry c attempt o in
    let next = next_at c attempt now random retry in
    recorded (record {
      id = d.id;
      attempt = attempt;
      status_code = o.status_code;
      error = error_of c attempt o;
      latency_ms = some o.latency_ms;
      delivered = o.delivered;
      terminal = not retry;
      next_attempt_at = next;
    })
    ∷ schedule d.id next

unfoldable pub attempt_delivery :
    Config → Option Delivery → UrlCheck → AttemptOutcome → ℕ → ℕ → List Effect
unfolding finish
attempt_delivery c none check o now random = []
attempt_delivery c (some d) check o now random =
    if d.terminal || d.delivered
    then []
    else (if not d.endpoint_active
        then fail d "endpoint is deactivated"
        else (if not check.ok
            then fail d (or_else check.reason "url rejected")
            else sent d.id ∷ finish c d o now random))
