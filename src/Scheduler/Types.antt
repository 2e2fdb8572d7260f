-- ===== src/Scheduler/Types.antt =====
-- internal/scheduler: Task, Result and RunNode's leaf data (strategy.go), the errors (errors.go,
-- scheduler.go), and the failure kinds and reasons (soft_failure.go).
use oh_my_api.Base.{ℕ, Bool, Option, List, Text, ℤ}
use oh_my_api.Base.{[], ◌∷◌, text_eq, if◌then◌else◌}

-- What `errors.Is` and `errors.As` tell about an error: a context abort, a timeout of the attempt,
-- an end of the connection, a net.Error with its `Timeout()`, a RateLimitError with its provider,
-- a sentinel of errors.go, or another error.
pub data Err : Type 0 where
  canceled deadline_exceeded : Err
  prefill_timeout attempt_timeout : Err
  end_of_file : Err
  net_error : Bool → Err
  rate_limit : Text → Err
  all_rate_limited all_providers_failed no_tasks unknown_strategy no_provider_available : Err
  other_error : Text → Err

pub data FailureKind : Type 0 where
  success hard_failure soft_failure : FailureKind

pub data FailureReason : Type 0 where
  no_reason http_status quota_exceeded content_filter : FailureReason
  content_filter_finish content_filter_stop content_filter_detail content_filter_phrase :
      FailureReason

-- HealthActionInfo; the fixed cooldown is in nanoseconds.
pub data HealthAction : Type 0 where
  no_health_action : HealthAction
  mark_unhealthy : ℕ → HealthAction
  mark_unhealthy_quota : HealthAction

-- An upstream request as the scheduler looks at it: whether GetBody is set, whether the body is
-- nil or NoBody, and the host of its URL.
pub record Request : Type 0 where
  pub has_get_body : Bool
  pub is_bodiless : Bool
  pub host : Text

pub record Task : Type 0 where
  pub provider_name : Text
  pub protocols : List Text
  pub upstream_model : Text
  pub outbound_protocol : Text
  pub weight : ℤ
  pub model_qpm : ℤ
  pub enable_time_range : List Text
  pub disable_time_range : List Text
  pub retries : ℤ
  pub stream : Bool
  pub request : Option Request

-- An upstream response: its status, whether it is an event stream, the host that it came from
-- (none without a request URL), and the code that parseErrorCode reads in its body.
pub record Response : Type 0 where
  pub status_code : ℕ
  pub is_stream : Bool
  pub host : Option Text
  pub error_code : Text

pub record Result : Type 0 where
  pub response : Response
  pub winner : Text
  pub upstream_model : Text
  pub outbound_protocol : Text
  pub failure_kind : FailureKind
  pub failure_reason : FailureReason
  pub health_action : HealthAction
  pub stream_ttft : ℕ

-- `(*Result, error)` with exactly one of the two set.
pub data Outcome : Type 0 where
  result : Result → Outcome
  error : Err → Outcome

-- responseProtocol
abbrev pub head_or_empty : List Text → Text
head_or_empty [] = []
head_or_empty (p ∷ ps) = p

unfoldable pub response_protocol : Task → Text
response_protocol t =
    if text_eq t.outbound_protocol [] then head_or_empty t.protocols else t.outbound_protocol
