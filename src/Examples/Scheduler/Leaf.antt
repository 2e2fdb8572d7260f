-- ===== src/Examples/Scheduler/Leaf.antt =====
-- One candidate at a time (retry.go, context_abort.go, strategy.go).
use oh_my_api.Base.{◌+◌, ◌≤◌, ◌≡◌, refl, true, false, none, some, [], ◌∷◌, txt, text_eq}
use oh_my_api.Health.{is_healthy}
use oh_my_api.Scheduler.Types.{Task, success, no_reason, result, end_of_file}
use oh_my_api.Scheduler.Abort.{
  by_cancel, abort_error, is_context_abort, should_stop_scheduling, abort_error-is_context_abort,
}
use oh_my_api.Scheduler.Classify.{mark_quota_failure}
use oh_my_api.Scheduler.Leaf.{execute_task, request_is_replayable}
use oh_my_api.Scheduler.Leaf.Retries.{sends, execute_task-sends}
use oh_my_api.Scheduler.Leaf.Reports.{Reaches, key_of, execute_task-Reaches}
use oh_my_api.Scheduler.Leaf.Quota.{failed_with, execute_task_402}
use oh_my_api.Examples.Scheduler.Upstreams.{env, meter_with, world, down, broke, good, answer}

abort_error-is_context_abort_example :
    is_context_abort (abort_error (some by_cancel) (some end_of_file)) ≡ true
abort_error-is_context_abort_example =
    abort_error-is_context_abort (some by_cancel) (some end_of_file)
      (unfold should_stop_scheduling in refl)

abbrev mistyped : Task
mistyped = record good { disable_time_range = txt "22:00" ∷ [] }

execute_task-sends_example :
    (sends env (meter_with none) world + 1
      ≤ sends env (meter_with none) (execute_task env down world).1)
    × (sends env (meter_with none) (execute_task env down world).1
        ≤ sends env (meter_with none) world + 3)
    × (request_is_replayable down ≡ false
        → sends env (meter_with none) (execute_task env down world).1
          ≡ sends env (meter_with none) world + 1)
execute_task-sends_example = execute_task-sends env (meter_with none) down world

execute_task-Reaches_example :
    Reaches (λ k. k ≡ key_of down) 1 world.health (execute_task env down world).1.health
execute_task-Reaches_example = execute_task-Reaches env down world

execute_task_402_example :
    let (o, w') = execute_task env broke world in
    (o ≡ result (mark_quota_failure (failed_with broke (answer 402))))
    × (w'.net ≡ 1)
    × (is_healthy w'.health 1000000000 (key_of broke) ≡ false)
unfolding text_eq
execute_task_402_example =
    execute_task_402 env broke world 1 (answer 402) success no_reason 0 refl refl refl
