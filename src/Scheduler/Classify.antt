-- ===== src/Scheduler/Classify.antt =====
-- internal/scheduler/soft_failure.go: from an upstream response to a classified result
-- (parseResponse, applyProviderErrorClassification, applyHealthAction). What the JSON or the first
-- events of a body say (classifyResponse, probeStreamPrefix) comes with the response, as `Reading`.
use oh_my_api.Base.{
  ℕ, ◌*◌, Bool, true, false, not, ◌&&◌, Option, none, some, List, [], ◌∷◌, any, leb, ◌==◌,
  if◌then◌else◌, Text, txt, text_eq,
}
use oh_my_api.Health.{Checker, mark_unhealthy_escalating, mark_unhealthy_for}
use oh_my_api.Scheduler.Types.{
  Err, FailureKind, success, hard_failure, soft_failure, FailureReason, no_reason, http_status,
  quota_exceeded, content_filter, no_health_action, mark_unhealthy, mark_unhealthy_quota, Request,
  Task, Response, Result, Outcome, result, error, response_protocol,
}

-- What reading the body brings: an error, or the kind of content, its reason, and for a stream the
-- time to its first event.
pub data Reading : Type 0 where
  unreadable : Err → Reading
  content : FailureKind → FailureReason → ℕ → Reading

abbrev classified : Result → FailureKind → FailureReason → Result
classified r kind reason = record r { failure_kind = kind; failure_reason = reason }

unfoldable pub parse_response : Response → Reading → Task → Outcome
parse_response resp reading task =
    if resp.is_stream
    then (if leb 400 resp.status_code
        then result (classified base hard_failure http_status)
        else read_stream)
    else read_buffered
  where
    base : Result
    base = record {
      response = resp;
      winner = task.provider_name;
      upstream_model = task.upstream_model;
      outbound_protocol = response_protocol task;
      failure_kind = success;
      failure_reason = no_reason;
      health_action = no_health_action;
      stream_ttft = 0;
    }

    read_stream : Outcome
    read_stream = elim reading [
      | unreadable e ↦ error e
      | content kind reason ttft ↦
          result (record base { failure_kind = kind; failure_reason = reason; stream_ttft = ttft })
    ]

    read_buffered : Outcome
    read_buffered = elim reading [
      | unreadable e ↦ error e
      | content kind reason _ ↦
          if leb 400 resp.status_code
          then result (classified base hard_failure http_status)
          else result (classified base kind reason)
    ]

abbrev pub tencent_hosts : List Text
tencent_hosts = txt "api.lkeap.cloud.tencent.com" ∷ txt "tokenhub.tencentmaas.com" ∷ []

abbrev pub tencent_quota_error_codes : List Text
tencent_quota_error_codes = txt "401007" ∷ txt "401008" ∷ txt "403004" ∷ []

abbrev pub open_ai_quota_error_codes : List Text
open_ai_quota_error_codes =
    txt "credit_balance_exhausted"
    ∷ txt "organization_spend_limit_exceeded"
    ∷ txt "project_spend_limit_exceeded"
    ∷ txt "organization_usage_limit_exceeded"
    ∷ []

-- A key of one of the tables.
unfoldable pub listed : Text → List Text → Bool
listed t table = any (λ x. text_eq x t) table

-- makeRequestTarget: the host of the response's request, or else of the task's.
abbrev pub target_host : Response → Option Request → Text
target_host resp request = elim resp.host [
  | some h ↦ h
  | none ↦ elim request [ some q ↦ q.host | none ↦ [] ]
]

-- markQuotaFailure
unfoldable pub mark_quota_failure : Result → Result
mark_quota_failure r = record r {
  failure_kind = hard_failure;
  failure_reason = quota_exceeded;
  health_action = mark_unhealthy_quota;
}

-- The switch on a Tencent error code.
unfoldable pub tencent_classified : Text → Result → Result
unfolding mark_quota_failure
tencent_classified code r =
    if listed code tencent_quota_error_codes
    then mark_quota_failure r
    else if text_eq code (txt "451001")
    then record r {
      failure_kind = soft_failure;
      failure_reason = content_filter;
      health_action = no_health_action;
    }
    else r

abbrev pub is_hard : FailureKind → Bool
is_hard hard_failure = true
is_hard _ = false

-- isOpenAIQuotaError
abbrev pub is_open_ai_quota_error : Response → Bool
is_open_ai_quota_error resp =
    not (text_eq resp.error_code []) && listed resp.error_code open_ai_quota_error_codes

unfoldable pub apply_provider_error_classification : Option Request → Result → Result
unfolding mark_quota_failure tencent_classified
apply_provider_error_classification request r =
    let resp = r.response in
    if not (is_hard r.failure_kind)
    then r
    else if resp.is_stream
    then r
    else if resp.status_code == 402
    then mark_quota_failure r
    else if listed (target_host resp request) tencent_hosts
    then tencent_classified resp.error_code r
    else if (resp.status_code == 429) && is_open_ai_quota_error resp
    then mark_quota_failure r
    else r

abbrev pub hour : ℕ
hour = 3600 * 1000000000

abbrev pub quota_base_cooldown : ℕ
quota_base_cooldown = hour

abbrev pub quota_max_cooldown : ℕ
quota_max_cooldown = 12 * hour

-- applyHealthAction
unfoldable pub apply_health_action : ℕ → Text → Result → Checker → Checker
unfolding mark_unhealthy_escalating mark_unhealthy_for
apply_health_action now key r c = elim r.health_action [
  | mark_unhealthy_quota ↦
      mark_unhealthy_escalating now key quota_base_cooldown quota_max_cooldown c
  | mark_unhealthy d ↦ mark_unhealthy_for now key d c
  | no_health_action ↦ c
]
