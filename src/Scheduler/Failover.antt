-- ===== src/Scheduler/Failover.antt =====
-- internal/scheduler/failover.go: FailoverStrategy, the candidates one after the other and then the
-- deferred ones, with stopSequential (context_abort.go). Logs are left out.
pub mod Steps
pub mod Bounds
pub mod Winner
pub mod Cancel
pub mod Isolation
use oh_my_api.Base.{
  ℕ, Bool, true, false, not, ◌&&◌, ◌||◌, Option, none, some, List, [], ◌∷◌, ◌++◌, if◌then◌else◌,
  Text,
}
use oh_my_api.Health.{Checker, is_healthy, make_health_key}
use oh_my_api.RateLimit.{wait}
use oh_my_api.Scheduler.Types.{
  Err, no_tasks, no_provider_available, other_error, success, hard_failure, soft_failure, Task,
  Result, Outcome, result, error,
}
use oh_my_api.Scheduler.Abort.{Abort, should_stop_scheduling, abort_error, entry_abort}
use oh_my_api.Scheduler.Fallback.{
  Fallback, new_fallback, discard_soft_result, record_rate_limit, record_hard_result,
  record_hard_error, record_soft_result, final,
}
use oh_my_api.Scheduler.Windows.{is_provider_disabled_at, all_providers_disabled}
use oh_my_api.Scheduler.World.{Env, World}
use oh_my_api.Scheduler.Leaf.{allow_task, execute_task}

-- stopSequential: the error to stop with, if scheduling must stop, and the fallback after it.
unfoldable pub stop_sequential : Option Abort → Option Err → Fallback → Option Err × Fallback
unfolding should_stop_scheduling
stop_sequential ctx err f =
    if should_stop_scheduling ctx err
    then (some (abort_error ctx err), discard_soft_result f)
    else (none, f)

-- handleAttemptOutcome: what Execute returns at once, if anything, and the fallback after it.
unfoldable pub handle_attempt_outcome :
    Option Abort → Outcome → Fallback → Option Outcome × Fallback
unfolding stop_sequential
handle_attempt_outcome ctx (error e) f =
    let (stop, f1) = stop_sequential ctx (some e) f in
    elim stop [ some a ↦ (some (error a), f1) | none ↦ (none, record_hard_error e f1) ]
handle_attempt_outcome ctx (result r) f = elim r.failure_kind [
  | success ↦ (some (result r), discard_soft_result f)
  | soft_failure ↦ (none, record_soft_result r f)
  | hard_failure ↦ (none, record_hard_result r f)
]

-- failoverDeferredTask
pub record DeferredTask : Type 0 where
  pub task : Task
  pub wait_for_rate_limit : Bool

module _ (env : Env) where
  -- Where a run stands: what it returns, if it is over, the world, the fallback and the deferred
  -- candidates.
  pub record Run : Type 0 where
    pub returned : Option Outcome
    pub world : World env
    pub fallback : Fallback
    pub deferred : List DeferredTask

  -- executeTask and handleAttemptOutcome on a candidate.
  unfoldable pub attempt : Task → Run → Run
  attempt task run =
      let (o, w) = execute_task env task run.world in
      let (returned, f) = handle_attempt_outcome (env.ctx_err w.net) o run.fallback in
      record run { returned = returned; world = w; fallback = f }

  abbrev pub defer : Bool → Task → Run → Run
  defer waits task run = record run {
    deferred = run.deferred ++ (record { task = task; wait_for_rate_limit = waits } ∷ []);
  }

  abbrev pub stop_with : Option Err → Fallback → Run → Run
  stop_with none f run = record run { fallback = f }
  stop_with (some a) f run = record run { returned = some (error a); fallback = f }

  abbrev pub stopped : Option Err → Run → Run
  stopped err run =
      let (stop, f) = stop_sequential (env.ctx_err run.world.net) err run.fallback in
      stop_with stop f run

  -- The body of the first loop, after its test of the context.
  unfoldable pub consider : ℕ → Task → Run → Run
  unfolding attempt is_provider_disabled_at is_healthy allow_task
  consider minute task run =
      let w = run.world in
      let key = make_health_key task.provider_name task.outbound_protocol in
      let (ok, limited) = allow_task env task w in
      if is_provider_disabled_at task minute
      then run
      else if not (env.cascade_ready w.net task.provider_name)
      then run
      else if not (is_healthy w.health (env.clock w.net) key)
      then defer false task run
      else if not ok
      then defer true task (record run { world = limited })
      else attempt task (record run { world = limited })

  -- The rate limiter's Wait for a deferred candidate. Its error is the context's, or that the
  -- token would come after the deadline.
  unfoldable pub wait_task : Task → World env → Bool × World env
  unfolding wait
  wait_task task w =
      let (ok, limits) =
        wait env.rate (env.clock w.net) task.provider_name task.upstream_model task.model_qpm
          w.limits in
      (ok, record w { limits = limits; net = env.idle w.net })

  -- What follows a Wait that failed.
  abbrev pub wait_failed : Run → Run
  wait_failed run =
      let run1 = stopped (some (other_error [])) run in
      record run1 { fallback = record_rate_limit run1.fallback }

  -- The body of the second loop, after its test of the context.
  unfoldable pub retry_deferred : DeferredTask → Run → Run
  unfolding attempt allow_task wait_task stop_sequential
  retry_deferred d run =
      let (ok, limited) = allow_task env d.task run.world in
      let run1 = record run { world = limited } in
      if ok
      then attempt d.task run1
      else if d.wait_for_rate_limit
      then (let (came, waited) = wait_task d.task limited in
          let run2 = record run { world = waited } in
          if came then attempt d.task run2 else wait_failed run2)
      else record run1 { fallback = record_rate_limit run1.fallback }

  abbrev pub settle : Option Outcome → Run → Run → Run
  settle (some o) run next = run
  settle none run next = next

  -- One round of a loop, unless the run is over: the test of the context, then the body.
  unfoldable pub round : (Run → Run) → Run → Run
  unfolding stop_sequential
  round body run =
      let checked = stopped none run in
      settle run.returned run (settle checked.returned checked (body checked))

  unfoldable pub first_pass : ℕ → List Task → Run → Run
  unfolding round consider
  first_pass minute [] run = run
  first_pass minute (task ∷ tasks) run = first_pass minute tasks (round (consider minute task) run)

  unfoldable pub second_pass : List DeferredTask → Run → Run
  unfolding round retry_deferred
  second_pass [] run = run
  second_pass (d ∷ ds) run = second_pass ds (round (retry_deferred d) run)

  -- What Execute returns: the outcome of the passes, or else the fallback's.
  abbrev pub outcome_of : Run → Outcome
  outcome_of run = elim run.returned [ some o ↦ o | none ↦ (final run.fallback).0 ]

  abbrev pub start : World env → Run
  start w = record { returned = none; world = w; fallback = new_fallback; deferred = [] }

  abbrev pub passes : ℕ → List Task → World env → Run
  passes minute tasks w =
      let run = first_pass minute tasks (start w) in second_pass run.deferred run

  -- FailoverStrategy.Execute
  unfoldable pub execute : List Task → World env → Outcome × World env
  unfolding first_pass second_pass
  execute [] w = (error no_tasks, w)
  execute (task ∷ tasks) w = elim (entry_abort (env.ctx_err w.net)) [
    | some e ↦ (error e, w)
    | none ↦
        let minute = env.minute w.net in
        if all_providers_disabled (task ∷ tasks) minute
        then (error no_provider_available, w)
        else (let run = passes minute (task ∷ tasks) w in (outcome_of run, run.world))
  ]
