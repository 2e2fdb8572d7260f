-- ===== src/Scheduler/Leaf.antt =====
-- internal/scheduler/retry.go: one candidate, with its retries (leafRuntime.executeTask).
-- Logs and metrics are left out.
pub mod Retries
pub mod Reports
pub mod Quota
use oh_my_api.Base.{
  ℕ, zero, suc, ◌≡◌, Bool, true, false, not, ◌&&◌, ◌||◌, Option, none, some, List, [], ◌∷◌, ltb,
  leb, ◌==◌, is_some, if◌then◌else◌, Text, txt, text_eq, ℤ, pos, ltb_ℤ, leb_ℤ, pos_part,
}
use oh_my_api.Health.{Checker, report_success, report_failure, make_health_key}
use oh_my_api.RateLimit.{allow}
use oh_my_api.Scheduler.Types.{
  Err, prefill_timeout, attempt_timeout, end_of_file, net_error, FailureKind, success, hard_failure,
  soft_failure, FailureReason, quota_exceeded, HealthAction, no_health_action, Request, Task,
  Result, Outcome, result, error,
}
use oh_my_api.Scheduler.Abort.{Abort, is_context_abort, should_stop_scheduling, abort_error}
use oh_my_api.Scheduler.Classify.{
  parse_response, apply_provider_error_classification, apply_health_action,
}
use oh_my_api.Scheduler.World.{Env, World, Reply, replied, broken}

abbrev pub max_leaf_retries : ℕ
max_leaf_retries = 2

-- leafRetryBudget
unfoldable pub leaf_retry_budget : Task → ℕ
leaf_retry_budget task =
    if leb_ℤ task.retries (pos 0)
    then 0
    else if ltb_ℤ (pos max_leaf_retries) task.retries
    then max_leaf_retries
    else pos_part task.retries

-- isRetryableTransportError
unfoldable pub is_retryable_transport_error : Err → Bool
is_retryable_transport_error end_of_file = true
is_retryable_transport_error (net_error timeout) = not timeout
is_retryable_transport_error _ = false

abbrev is_attempt_timeout : Err → Bool
is_attempt_timeout prefill_timeout = true
is_attempt_timeout attempt_timeout = true
is_attempt_timeout _ = false

abbrev is_quota : FailureReason → Bool
is_quota quota_exceeded = true
is_quota _ = false

abbrev pub is_hard_failure : FailureKind → Bool
is_hard_failure hard_failure = true
is_hard_failure _ = false

abbrev pub is_success : Outcome → Bool
is_success (result r) = elim r.failure_kind [ success ↦ true | _ ↦ false ]
is_success (error e) = false

abbrev err_of : Outcome → Option Err
err_of (result r) = none
err_of (error e) = some e

-- isRetryableAttempt after its first test.
abbrev retryable : Outcome → Bool
retryable (error e) = if is_attempt_timeout e then false else is_retryable_transport_error e
retryable (result r) =
    if not (is_hard_failure r.failure_kind)
    then false
    else if is_quota r.failure_reason
    then false
    else leb 500 r.response.status_code

-- isRetryableAttempt
unfoldable pub is_retryable_attempt : Option Abort → Outcome → Bool
unfolding should_stop_scheduling is_retryable_transport_error
is_retryable_attempt ctx o = if should_stop_scheduling ctx (err_of o) then false else retryable o

-- requestIsReplayable
abbrev replayable : Option Request → Bool
replayable none = true
replayable (some q) = q.has_get_body || q.is_bodiless

unfoldable pub request_is_replayable : Task → Bool
request_is_replayable task = replayable task.request

-- reportFailureUnlessAbort
unfoldable pub report_failure_unless_abort : ℕ → Text → Err → Checker → Checker
report_failure_unless_abort now key e c = if is_context_abort e then c else report_failure now key c

abbrev acts : HealthAction → Bool
acts no_health_action = false
acts _ = true

-- The switch at the end of applyAttemptHealth.
abbrev report_kind : ℕ → Text → Result → Checker → Checker
report_kind now key r c = elim r.failure_kind [
  | success ↦ report_success key c
  | hard_failure ↦ if leb 500 r.response.status_code then report_failure now key c else c
  | soft_failure ↦ c
]

-- applyAttemptHealth
unfoldable pub apply_attempt_health : ℕ → Task → Outcome → Checker → Checker
unfolding report_failure_unless_abort
apply_attempt_health now task (error e) c =
    report_failure_unless_abort now (make_health_key task.provider_name task.outbound_protocol) e c
apply_attempt_health now task (result r) c =
    let key = make_health_key task.provider_name task.outbound_protocol in
    let acted = apply_health_action now key r c in
    if acts r.health_action then acted else report_kind now key r acted

abbrev pub classified_outcome : Option Request → Outcome → Outcome
classified_outcome q (error e) = error e
classified_outcome q (result r) = result (apply_provider_error_classification q r)

abbrev pub read_reply : Task → Reply → Outcome
read_reply task (broken e) = error e
read_reply task (replied resp reading) =
    classified_outcome task.request (parse_response resp reading task)

module _ (env : Env) where
  -- executeOnce
  unfoldable pub execute_once : Task → World env → Outcome × World env
  execute_once task w =
      let (reply, net) = env.send task w.net in (read_reply task reply, record w { net = net })

  -- The manager's Allow for a task, at the present moment.
  unfoldable pub allow_task : Task → World env → Bool × World env
  allow_task task w =
      let (ok, limits) =
        allow env.rate (env.clock w.net) task.provider_name task.upstream_model task.model_qpm
          w.limits in
      (ok, record w { limits = limits })

  unfoldable pub with_health : Task → Outcome → World env → World env
  unfolding apply_attempt_health
  with_health task o w = record w {
    health = apply_attempt_health (env.clock w.net) task o w.health;
  }

  abbrev pub aborts : World env → Bool
  aborts w = should_stop_scheduling (env.ctx_err w.net) none

  -- The moment between two checks of the context, in which it may end.
  abbrev pub passed : World env → World env
  passed w = record w { net = env.idle w.net }

  -- The rounds of the loop that are left after an attempt with the outcome `o`: the checks before
  -- the next attempt, the attempt, and its own rounds.
  unfoldable pub retry_after : ℕ → Task → Outcome → World env → Outcome × World env
  retry_after zero task o w = (o, with_health task o w)
  retry_after (suc left) task o w =
      elim (is_success o || not (is_retryable_attempt (env.ctx_err w.net) o)) [
        | true ↦ (o, with_health task o w)
        | false ↦
            let w0 = passed w in
            elim (aborts w0) [
              | true ↦ (error (abort_error (env.ctx_err w0.net) none), w0)
              | false ↦
                  let (ok, w1) = allow_task task w0 in
                  elim ok [
                    | false ↦ (o, with_health task o w1)
                    | true ↦ let (o', w2) = execute_once task w1 in retry_after left task o' w2
                  ]
            ]
      ]

  -- leafRuntime.executeTask
  unfoldable pub execute_task : Task → World env → Outcome × World env
  unfolding retry_after execute_once
  execute_task task w =
      let extra = if request_is_replayable task then leaf_retry_budget task else 0 in
      let (o, w1) = execute_once task w in retry_after extra task o w1
