-- ===== src/Webhooks.antt =====
-- The delivery of webhooks (app/services/webhook_service.py, app/models/webhook.py). The state is
-- the two tables and the circuit breaker; requests, the breaker's writes and queued tasks are
-- effects, in the order of the source. Times are in milliseconds. A body is its characters.
pub mod Network
pub mod Resolved
pub mod Screened
pub mod Signing
pub mod Sending
pub mod Answered
pub mod Dispatch
pub mod Phases
pub mod Lifecycle
pub mod Schedule
pub mod Exhausted
pub mod Screening
pub mod Verified
pub mod Retried
mod Tests
pub mod Queue
pub mod Replay
pub mod Endpoint
pub mod Runs
pub mod Kept
pub mod Stuck
use apex_chainx_backend.Common.{
  ℕ, ◌+◌, ◌*◌, ◌/◌, ◌^◌, min, max, String, Bool, true, false, not, ◌&&◌, ◌||◌, Option, none, some,
  List, [], ◌∷◌, ◌++◌, map, str_eq, leb, ltb, ◌==◌, if◌then◌else◌, get_or, is_some, length, take,
  any, Dict, insert,
}
use apex_chainx_backend.Breaker
use apex_chainx_backend.Breaker.{CircuitBreaker}
use apex_chainx_backend.Webhooks.Network.{
  Checked, refused, accepted, Library, NetworkSettings, validate_webhook_url,
}

-- `WebhookDeliveryStatus`
pub data DeliveryStatus : Type 0 where
  pending sending success failed retrying dead_letter breaker_open : DeliveryStatus

pub record Webhook : Type 0 where
  pub id : String
  pub url : String
  pub secret : Option String
  pub is_active : Bool
  pub events : String
  pub resolved_ips : Option String
  pub max_retries : ℕ
  pub deleted_at : Option ℕ

pub record WebhookDelivery : Type 0 where
  pub id : String
  pub webhook_id : String
  pub event : String
  pub payload : String
  pub status : DeliveryStatus
  pub attempt_count : ℕ
  pub next_retry_at : Option ℕ
  pub response_status_code : Option ℕ
  pub response_body : Option (List ℕ)
  pub error_message : Option String
  pub delivered_at : Option ℕ
  pub dead_lettered_at : Option ℕ
  pub signature_version : ℕ
  pub created_at : ℕ
  pub updated_at : ℕ

-- The settings, and the functions of other packages: the HMAC of a key and a message as a text of
-- digits, `str` of a number, `json.loads` of a list of texts, the substitution of the two patterns.
pub record Env : Type 0 where
  pub retry_base_delays : List ℕ
  pub retry_jitter : String
  pub retry_max_delay_seconds : ℕ
  pub library : Library
  pub network : NetworkSettings
  pub breaker : Breaker.Config
  pub shared : Bool
  pub hostname : String → Option String
  pub hmac : String → String → String
  pub digits : ℕ → String
  pub loads : String → Option (List String)
  pub redact : List ℕ → List ℕ

-- What the request through httpx ends in.
pub data Answer : Type 0 where
  response : ℕ → Bool → List ℕ → Answer
  timeout : String → Answer
  request_error : String → Answer

-- What one dispatch finds outside: clocks, contexts, the resolver, Redis, the answer, the dice.
pub record World : Type 0 where
  pub claimed_at : ℕ
  pub correlation_id : String
  pub traceparent : Option String
  pub timestamp : String
  pub addr_info : String → Option (List String)
  pub marker : Option Bool
  pub adopted_at : ℕ
  pub checked_at : ℕ
  pub answer : Answer
  pub failed_at : ℕ
  pub uniform : ℕ → ℕ → ℕ
  pub settled_at : ℕ
  pub finished_at : ℕ

-- What escapes from a dispatch.
pub data Exception : Type 0 where
  network_validation_error : String → Exception
  value_error attribute_error integrity_error : Exception

pub data Effect : Type 0 where
  post : String → String → Dict String → Effect
  breaker_effect : Breaker.Effect → Effect
  enqueue : String → Effect
  audit_entry : String → Dict String → Effect

-- One attempt: an exception, or the answer, with the row and the breaker as it leaves them.
pub data Attempt : Type 0 where
  raised : Exception → Attempt
  attempted : Bool → WebhookDelivery → CircuitBreaker → List Effect → Attempt

-- `delay` in milliseconds; the factor of the mode "equal" in thousandths.
unfoldable pub apply_jitter : Env → (ℕ → ℕ → ℕ) → ℕ → ℕ
apply_jitter env uniform delay =
    if str_eq env.retry_jitter "none"
    then delay
    else if str_eq env.retry_jitter "equal"
    then delay * uniform 500 1500 / 1000
    else max 1000 (uniform 0 (delay * 2))

unfoldable pub scrub_response_body : Env → List ℕ → List ℕ
scrub_response_body env body = take 500 (env.redact body)

-- A text that `if text:` takes as set.
abbrev pub is_set : Option String → Bool
is_set none = false
is_set (some s) = not (str_eq s "")
