-- ===== src/Scheduler/Leaf/Quota.antt =====
-- What a 402 answer does to a candidate.
use oh_my_api.Base.{
  ℕ, zero, suc, ◌-◌, ◌≡◌, refl, ◌∙◌, ap, inl, inr, true, false, Option, some, arith, Bool-cases,
  Option-cases, Text, lookup, lookup-insert_self, leb,
}
use oh_my_api.Health.{Checker, is_healthy, cooldown_of, mark_with, mark_unhealthy_escalating}
use oh_my_api.Scheduler.Types.{
  FailureKind, hard_failure, FailureReason, http_status, no_health_action, response_protocol, Task,
  Response, Request, Result, Outcome, result,
}
use oh_my_api.Scheduler.Abort.{Abort}
use oh_my_api.Scheduler.Classify.{
  content, parse_response, apply_provider_error_classification, mark_quota_failure,
  apply_health_action, quota_base_cooldown, quota_max_cooldown,
}
use oh_my_api.Scheduler.World.{Env, World, Reply, replied}
use oh_my_api.Scheduler.Leaf.{
  execute_once, with_health, retry_after, execute_task, is_success, classified_outcome,
  is_retryable_attempt, apply_attempt_health, read_reply,
}
use oh_my_api.Scheduler.Leaf.Retries.{extra_of}
use oh_my_api.Scheduler.Leaf.Reports.{key_of}

mark_with-is_healthy :
    (now : ℕ) (key : Text) (d : ℕ) (c : Checker)
    → is_healthy (mark_with now key d c) now key ≡ false
unfolding mark_with is_healthy
mark_with-is_healthy now key d c = ground (arith, lookup-insert_self key now c.unhealthy_at)

kept-is_healthy :
    (now t : ℕ) (key : Text) (c : Checker)
    → lookup key c.unhealthy_at ≡ some t
    → leb (now - t) (cooldown_of c key) ≡ true
    → is_healthy c now key ≡ false
unfolding is_healthy
kept-is_healthy now t key c e l = ground (arith, e, l)

-- Whatever cooldown an escalating mark chooses, or keeps, its key is unhealthy at that moment.
escalating-is_healthy :
    (now : ℕ) (key : Text) (base most : ℕ) (c : Checker)
    → is_healthy (mark_unhealthy_escalating now key base most c) now key ≡ false
unfolding mark_unhealthy_escalating
escalating-is_healthy now key base most c = elim (Option-cases (lookup key c.unhealthy_at)) [
  | inl e ↦ rw (e, mark_unhealthy_escalating) (mark_with-is_healthy now key _ c)
  | inr (t, e) ↦ elim (Bool-cases (leb (now - t) (cooldown_of c key))) [
    | inr l ↦ rw (e, l, mark_unhealthy_escalating) (mark_with-is_healthy now key _ c)
    | inl l ↦ elim (Option-cases (lookup key c.cooldown_override)) [
      | inl o ↦ rw (e, l, o, mark_unhealthy_escalating) (mark_with-is_healthy now key _ c)
      | inr (d, o) ↦ rw (e, l, o, mark_unhealthy_escalating) (kept-is_healthy now t key c e l)
    ]
  ]
]

-- The result of a buffered answer with an error status, before its classification.
abbrev pub failed_with : Task → Response → Result
failed_with task resp = record {
  response = resp;
  winner = task.provider_name;
  upstream_model = task.upstream_model;
  outbound_protocol = response_protocol task;
  failure_kind = hard_failure;
  failure_reason = http_status;
  health_action = no_health_action;
  stream_ttft = 0;
}

parse_response_402 :
    (task : Task) (resp : Response) (k : FailureKind) (why : FailureReason) (t : ℕ)
    → resp.is_stream ≡ false
    → resp.status_code ≡ 402
    → parse_response resp (content k why t) task ≡ result (failed_with task resp)
unfolding parse_response
parse_response_402 task resp k why t s c = ground (arith, s, c)

classification_402 :
    (q : Option Request) (task : Task) (resp : Response)
    → resp.is_stream ≡ false
    → resp.status_code ≡ 402
    → apply_provider_error_classification q (failed_with task resp)
      ≡ mark_quota_failure (failed_with task resp)
unfolding apply_provider_error_classification mark_quota_failure
classification_402 q task resp s c = ground (arith, s, c)

read_reply_402 :
    (task : Task) (resp : Response) (k : FailureKind) (why : FailureReason) (t : ℕ)
    → resp.is_stream ≡ false
    → resp.status_code ≡ 402
    → read_reply task (replied resp (content k why t))
      ≡ result (mark_quota_failure (failed_with task resp))
read_reply_402 task resp k why t s c =
    ap (classified_outcome task.request) (parse_response_402 task resp k why t s c)
    ∙ ap result (classification_402 task.request task resp s c)

is_retryable_quota :
    (ctx : Option Abort) (task : Task) (resp : Response)
    → is_retryable_attempt ctx (result (mark_quota_failure (failed_with task resp))) ≡ false
unfolding is_retryable_attempt mark_quota_failure
is_retryable_quota ctx task resp = ground arith

not_success :
    (task : Task) (resp : Response)
    → is_success (result (mark_quota_failure (failed_with task resp))) ≡ false
unfolding mark_quota_failure
not_success task resp = refl

module _ (env : Env) where
  stops_at :
      (left : ℕ) (task : Task) (o : Outcome) (w : World env)
      → is_retryable_attempt (env.ctx_err w.net) o ≡ false
      → is_success o ≡ false
      → retry_after env left task o w ≡ (o, with_health env task o w)
  unfolding retry_after
  stops_at zero task o w e k = refl
  stops_at (suc left) task o w e k = rw (k, e, retry_after) refl

  quota-is_healthy :
      (task : Task) (resp : Response) (w : World env)
      → is_healthy
          (with_health env task (result (mark_quota_failure (failed_with task resp))) w).health
          (env.clock w.net)
          (key_of task)
        ≡ false
  unfolding with_health apply_attempt_health apply_health_action mark_quota_failure
  quota-is_healthy task resp w =
      escalating-is_healthy (env.clock w.net) (key_of task) quota_base_cooldown quota_max_cooldown
        w.health

  with_health-net :
      (task : Task) (o : Outcome) (w : World env) → (with_health env task o w).net ≡ w.net
  unfolding with_health
  with_health-net task o w = refl

  -- A candidate whose first answer is a buffered 402 with a readable body is not tried again,
  -- whatever its retries and the state of the context are: the answer is returned as a hard
  -- failure for an exceeded quota, and the candidate's key is unhealthy at that moment.
  pub execute_task_402 :
      (task : Task) (w : World env) (net : env.Net) (resp : Response) (k : FailureKind)
      (why : FailureReason) (t : ℕ)
      → env.send task w.net ≡ (replied resp (content k why t), net)
      → resp.is_stream ≡ false
      → resp.status_code ≡ 402
      → let (o, w') = execute_task env task w in
        (o ≡ result (mark_quota_failure (failed_with task resp)))
        × (w'.net ≡ net)
        × (is_healthy w'.health (env.clock net) (key_of task) ≡ false)
  unfolding execute_task execute_once
  execute_task_402 task w net resp k why t e s c =
      let run = λ (p : Reply × env.Net).
        retry_after env (extra_of task) task (read_reply task p.0) (record w { net = p.1 }) in
      let w1 = record w { net = net } in
      let o = result (mark_quota_failure (failed_with task resp)) in
      let eq : execute_task env task w ≡ (o, with_health env task o w1) =
        ap run e
        ∙ ap (λ x. retry_after env (extra_of task) task x w1) (read_reply_402 task resp k why t s c)
        ∙ stops_at (extra_of task) task o w1 (is_retryable_quota (env.ctx_err net) task resp)
            (not_success task resp) in
      (
        ap (λ p. p.0) eq,
        ap (λ p. p.1.net) eq ∙ with_health-net task o w1,
        ap (λ p. is_healthy p.1.health (env.clock net) (key_of task)) eq
            ∙ quota-is_healthy task resp w1,
      )
