-- ===== src/Scheduler/Leaf/Retries.antt =====
-- How often a candidate is tried, and with what it ends.
use oh_my_api.Base.{
  ℕ, zero, suc, ◌+◌, ◌≤◌, ◌≡◌, refl, ◌∙◌, inl, inr, false, not, ◌||◌, Option, none, arith,
  Bool-cases, Text, if◌then◌else◌,
}
use oh_my_api.Scheduler.Types.{Task, Request, Response, Result, Outcome, result, error}
use oh_my_api.Scheduler.World.{Env, World, Meter, Reply, replied, broken}
use oh_my_api.Scheduler.Leaf.{
  execute_once, allow_task, with_health, aborts, passed, retry_after, execute_task,
  leaf_retry_budget, request_is_replayable, is_retryable_attempt, is_success, read_reply,
  classified_outcome,
}
use oh_my_api.Scheduler.Abort.{abort_error}
use oh_my_api.Scheduler.Classify.{
  Reading, unreadable, content, parse_response, apply_provider_error_classification,
  tencent_classified, mark_quota_failure,
}

leaf_retry_budget-le : (task : Task) → leaf_retry_budget task ≤ 2
unfolding leaf_retry_budget
leaf_retry_budget-le task = ground arith

-- The rounds after the first attempt.
abbrev pub extra_of : Task → ℕ
extra_of task = if request_is_replayable task then leaf_retry_budget task else 0

extra_of-le : (task : Task) → extra_of task ≤ 2
extra_of-le task = ground (arith, leaf_retry_budget-le task)

extra_of_zero : (task : Task) → request_is_replayable task ≡ false → extra_of task ≡ 0
extra_of_zero task e = rw e refl

-- What becomes of the rounds that are left.
pub data Next (env : Env) (left : ℕ) (task : Task) (o : Outcome) (w : World env) : Type 0 where
  stops :
      retry_after env (suc left) task o w ≡ (o, with_health env task o w) → Next env left task o w
  aborted :
      retry_after env (suc left) task o w
        ≡ (let w0 = passed env w in (error (abort_error (env.ctx_err w0.net) none), w0))
      → Next env left task o w
  refused :
      retry_after env (suc left) task o w
        ≡ (let w0 = passed env w in (o, with_health env task o (allow_task env task w0).1))
      → Next env left task o w
  again :
      retry_after env (suc left) task o w ≡ (
        let next = execute_once env task (allow_task env task (passed env w)).1 in
        retry_after env left task next.0 next.1)
      → Next env left task o w

pub retry_after-cases :
    (env : Env) (left : ℕ) (task : Task) (o : Outcome) (w : World env) → Next env left task o w
unfolding retry_after
retry_after-cases env left task o w =
    elim (Bool-cases (is_success o || not (is_retryable_attempt (env.ctx_err w.net) o))) [
      | inl e ↦ stops (rw (e, retry_after) refl)
      | inr e ↦ elim (Bool-cases (aborts env (passed env w))) [
        | inl d ↦ aborted (rw (e, d, retry_after) refl)
        | inr d ↦ elim (Bool-cases (allow_task env task (passed env w)).0) [
          | inl k ↦ again (rw (e, d, k, retry_after) refl)
          | inr k ↦ refused (rw (e, d, k, retry_after) refl)
        ]
      ]
    ]

module _ (env : Env) (meter : Meter env) where
  abbrev pub sends : World env → ℕ
  sends w = meter.exchanges w.net

  execute_once-sends :
      (task : Task) (w : World env) → sends (execute_once env task w).1 ≡ sends w + 1
  unfolding execute_once
  execute_once-sends task w = meter.exchanges-send task w.net

  pub allow_task-sends : (task : Task) (w : World env) → sends (allow_task env task w).1 ≡ sends w
  unfolding allow_task
  allow_task-sends task w = refl

  with_health-sends :
      (task : Task) (o : Outcome) (w : World env) → sends (with_health env task o w) ≡ sends w
  unfolding with_health
  with_health-sends task o w = refl

  retry_after-sends :
      (left : ℕ) (task : Task) (o : Outcome) (w : World env)
      → sends (retry_after env left task o w).1 ≤ sends w + left
  unfolding retry_after
  retry_after-sends zero task o w = omega (arith, with_health-sends task o w)
  retry_after-sends (suc left) task o w = elim (retry_after-cases env left task o w) [
    | stops e ↦ rw e (omega (arith, with_health-sends task o w))
    | aborted e ↦ let i = meter.exchanges-idle w.net in rw e (omega (arith, i))
    | refused e ↦
        let i = meter.exchanges-idle w.net in
        let w1 = (allow_task env task (passed env w)).1 in
        let p = allow_task-sends task (passed env w) in
        rw e (omega (arith, i, p, with_health-sends task o w1))
    | again e ↦
        let i = meter.exchanges-idle w.net in
        let w1 = (allow_task env task (passed env w)).1 in
        let next = execute_once env task w1 in
        let p = allow_task-sends task (passed env w) in
        let q = execute_once-sends task w1 in
        rw e (omega (arith, i, p, q, retry_after-sends left task next.0 next.1))
  ]

  retry_after-sends_least :
      (left : ℕ) (task : Task) (o : Outcome) (w : World env)
      → sends w ≤ sends (retry_after env left task o w).1
  unfolding retry_after
  retry_after-sends_least zero task o w = omega (arith, with_health-sends task o w)
  retry_after-sends_least (suc left) task o w = elim (retry_after-cases env left task o w) [
    | stops e ↦ rw e (omega (arith, with_health-sends task o w))
    | aborted e ↦ let i = meter.exchanges-idle w.net in rw e (omega (arith, i))
    | refused e ↦
        let i = meter.exchanges-idle w.net in
        let w1 = (allow_task env task (passed env w)).1 in
        let p = allow_task-sends task (passed env w) in
        rw e (omega (arith, i, p, with_health-sends task o w1))
    | again e ↦
        let i = meter.exchanges-idle w.net in
        let w1 = (allow_task env task (passed env w)).1 in
        let next = execute_once env task w1 in
        let p = allow_task-sends task (passed env w) in
        let q = execute_once-sends task w1 in
        rw e (omega (arith, i, p, q, retry_after-sends_least left task next.0 next.1))
  ]

  -- A candidate is tried at least once and at most three times, and exactly once if its request
  -- cannot be replayed.
  pub execute_task-sends :
      (task : Task) (w : World env)
      → (sends w + 1 ≤ sends (execute_task env task w).1)
        × (sends (execute_task env task w).1 ≤ sends w + 3)
        × (request_is_replayable task ≡ false → sends (execute_task env task w).1 ≡ sends w + 1)
  unfolding execute_task
  execute_task-sends task w =
      let first = execute_once env task w in
      let p = execute_once-sends task w in
      let lo = retry_after-sends_least (extra_of task) task first.0 first.1 in
      let hi = retry_after-sends (extra_of task) task first.0 first.1 in
      let b = extra_of-le task in
      (
        omega (arith, p, lo),
        omega (arith, p, hi, b),
        λ e. (let z = extra_of_zero task e in omega (arith, p, lo, hi, z)),
      )

-- The provider that an outcome names, where it is a result.
abbrev pub winner_or : Text → Outcome → Text
winner_or name (result r) = r.winner
winner_or name (error e) = name

parse_response-winner :
    (resp : Response) (reading : Reading) (task : Task)
    → winner_or task.provider_name (parse_response resp reading task) ≡ task.provider_name
unfolding parse_response
parse_response-winner resp (unreadable e) task = ground arith
parse_response-winner resp (content kind why ttft) task = ground arith

classification-winner :
    (q : Option Request) (r : Result) → (apply_provider_error_classification q r).winner ≡ r.winner
unfolding apply_provider_error_classification tencent_classified mark_quota_failure
classification-winner q r = ground arith

classified_outcome-winner :
    (name : Text) (q : Option Request) (o : Outcome)
    → winner_or name (classified_outcome q o) ≡ winner_or name o
classified_outcome-winner name q (error e) = refl
classified_outcome-winner name q (result r) = classification-winner q r

read_reply-winner :
    (task : Task) (reply : Reply)
    → winner_or task.provider_name (read_reply task reply) ≡ task.provider_name
read_reply-winner task (broken e) = refl
read_reply-winner task (replied resp reading) =
    classified_outcome-winner task.provider_name task.request (parse_response resp reading task)
    ∙ parse_response-winner resp reading task

module _ (env : Env) where
  execute_once-winner :
      (task : Task) (w : World env)
      → winner_or task.provider_name (execute_once env task w).0 ≡ task.provider_name
  unfolding execute_once
  execute_once-winner task w = read_reply-winner task (env.send task w.net).0

  retry_after-winner :
      (left : ℕ) (task : Task) (o : Outcome) (w : World env)
      → winner_or task.provider_name o ≡ task.provider_name
      → winner_or task.provider_name (retry_after env left task o w).0 ≡ task.provider_name
  unfolding retry_after
  retry_after-winner zero task o w h = h
  retry_after-winner (suc left) task o w h = elim (retry_after-cases env left task o w) [
    | stops e ↦ rw e h
    | aborted e ↦ rw e refl
    | refused e ↦ rw e h
    | again e ↦
        let w1 = (allow_task env task (passed env w)).1 in
        let next = execute_once env task w1 in
        rw e (retry_after-winner left task next.0 next.1 (execute_once-winner task w1))
  ]

  -- A result that a candidate ends with names the candidate's provider.
  pub execute_task-winner :
      (task : Task) (w : World env)
      → winner_or task.provider_name (execute_task env task w).0 ≡ task.provider_name
  unfolding execute_task
  execute_task-winner task w =
      let first = execute_once env task w in
      retry_after-winner (extra_of task) task first.0 first.1 (execute_once-winner task w)
