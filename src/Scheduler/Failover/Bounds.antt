-- ===== src/Scheduler/Failover/Bounds.antt =====
-- How many exchanges with upstreams a run of the failover strategy makes.
use oh_my_api.Base.{
  ℕ, ◌+◌, ◌*◌, ◌≤◌, ◌≡◌, refl, ap, inl, inr, Bool, Option, none, some, List, [], ◌∷◌, arith, length,
  length-append,
}
use oh_my_api.Scheduler.Types.{Err, Task, other_error}
use oh_my_api.Scheduler.World.{Env, World, Meter}
use oh_my_api.Scheduler.Leaf.Retries.{sends, allow_task-sends, execute_task-sends}
use oh_my_api.Scheduler.Failover.Steps.{
  limited_world, skipped, deferred, tried, consider-cases, tried_now, tried_later, not_waited,
  given_up, retry_deferred-cases, over, ended, worked, round-cases, turned_away, started,
  execute-cases,
}
use oh_my_api.Scheduler.Failover.{
  DeferredTask, Run, attempt, stopped, stop_sequential, consider, wait_task, retry_deferred, round,
  first_pass, second_pass, passes, start, execute,
}

module _ (env : Env) (meter : Meter env) where
  -- The requests made, and three for each candidate that is still deferred.
  abbrev spent : Run env → ℕ
  spent run = sends env meter run.world + 3 * length run.deferred

  attempt-spent :
      (task : Task) (run : Run env)
      → (spent (attempt env task run) ≤ spent run + 3)
        × ((attempt env task run).deferred ≡ run.deferred)
  unfolding attempt
  attempt-spent task run = (omega (arith, execute_task-sends env meter task run.world), refl)

  attempt-sends :
      (task : Task) (run : Run env)
      → sends env meter (attempt env task run).world ≤ sends env meter run.world + 3
  unfolding attempt
  attempt-sends task run = omega (arith, execute_task-sends env meter task run.world)

  wait_task-sends :
      (task : Task) (w : World env) → sends env meter (wait_task env task w).1 ≡ sends env meter w
  unfolding wait_task
  wait_task-sends task w = meter.exchanges-idle w.net

  abbrev put : Bool → Task → List DeferredTask
  put waits task = record { task = task; wait_for_rate_limit = waits } ∷ []

  stopped-spent :
      (err : Option Err) (run : Run env)
      → (sends env meter (stopped env err run).world ≡ sends env meter run.world)
        × ((stopped env err run).deferred ≡ run.deferred)
  unfolding stop_sequential
  stopped-spent err run = ground arith

  consider-spent :
      (minute : ℕ) (task : Task) (run : Run env)
      → spent (consider env minute task run) ≤ spent run + 3
  consider-spent minute task run = elim (consider-cases env minute task run) [
    | skipped e ↦ rw e (omega arith)
    | deferred waits w (inl k) o e ↦
        let l = length-append run.deferred (put waits task) in rw (e, k) (omega (arith, l))
    | deferred waits w (inr k) o e ↦
        let l = length-append run.deferred (put waits task) in
        rw (e, k) (omega (arith, l, allow_task-sends env meter task run.world))
    | tried o e ↦
        let run1 = record run { world = limited_world env task run.world } in
        rw e (omega (arith, (attempt-spent task run1).0, allow_task-sends env meter task run.world))
  ]

  retry_deferred-spent :
      (d : DeferredTask) (run : Run env)
      → (sends env meter (retry_deferred env d run).world ≤ sends env meter run.world + 3)
  retry_deferred-spent d run =
      let p = allow_task-sends env meter d.task run.world in
      let w = limited_world env d.task run.world in
      let waited = (wait_task env d.task w).1 in
      let q = wait_task-sends d.task w in
      elim (retry_deferred-cases env d run) [
        | tried_now e ↦ rw e (omega (arith, p, attempt-sends d.task (record run { world = w })))
        | tried_later e ↦
            rw e (omega (arith, p, q, attempt-sends d.task (record run { world = waited })))
        | not_waited e ↦
            let s = stopped-spent (some (other_error [])) (record run { world = waited }) in
            rw e (omega (arith, p, q, s))
        | given_up e ↦ rw e (omega (arith, p))
      ]

  consider-round-spent :
      (minute : ℕ) (task : Task) (run : Run env)
      → spent (round env (consider env minute task) run) ≤ spent run + 3
  consider-round-spent minute task run =
      let s = stopped-spent none run in
      let l = ap length s.1 in
      elim (round-cases env (consider env minute task) run) [
        | over e ↦ rw e (omega arith)
        | ended e ↦ rw e (omega (arith, s, l))
        | worked e ↦ rw e (omega (arith, s, l, consider-spent minute task (stopped env none run)))
      ]

  retry_round-spent :
      (d : DeferredTask) (run : Run env)
      → sends env meter (round env (retry_deferred env d) run).world ≤ sends env meter run.world + 3
  retry_round-spent d run =
      let s = stopped-spent none run in
      elim (round-cases env (retry_deferred env d) run) [
        | over e ↦ rw e (omega arith)
        | ended e ↦ rw e (omega (arith, s))
        | worked e ↦ rw e (omega (arith, s, retry_deferred-spent d (stopped env none run)))
      ]

  first_pass-spent :
      (minute : ℕ) (tasks : List Task) (run : Run env)
      → spent (first_pass env minute tasks run) ≤ spent run + 3 * length tasks
  unfolding first_pass
  first_pass-spent minute [] run = omega arith
  first_pass-spent minute (task ∷ tasks) run =
      let next = round env (consider env minute task) run in
      omega (arith, consider-round-spent minute task run, first_pass-spent minute tasks next)

  second_pass-spent :
      (ds : List DeferredTask) (run : Run env)
      → sends env meter (second_pass env ds run).world ≤ sends env meter run.world + 3 * length ds
  unfolding second_pass
  second_pass-spent [] run = omega arith
  second_pass-spent (d ∷ ds) run =
      let next = round env (retry_deferred env d) run in
      omega (arith, retry_round-spent d run, second_pass-spent ds next)

  passes-sends :
      (minute : ℕ) (tasks : List Task) (w : World env)
      → sends env meter (passes env minute tasks w).world ≤ sends env meter w + 3 * length tasks
  passes-sends minute tasks w =
      let run = first_pass env minute tasks (start env w) in
      omega (arith, first_pass-spent minute tasks (start env w), second_pass-spent run.deferred run)

  -- A run makes at most three exchanges with upstreams (calls of DoWithMeta, each of which may be two
  -- requests) for each candidate, the deferred ones included.
  pub execute-sends :
      (tasks : List Task) (w : World env)
      → sends env meter (execute env tasks w).1 ≤ sends env meter w + 3 * length tasks
  execute-sends tasks w = elim (execute-cases env tasks w) [
    | turned_away err e ↦ rw e (omega arith)
    | started a d e ↦ rw e (passes-sends (env.minute w.net) tasks w)
  ]
