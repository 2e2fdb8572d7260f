-- ===== src/Examples/Scheduler/Failover.antt =====
-- Runs of the failover strategy (failover.go).
use oh_my_api.Base.{◌+◌, ◌*◌, ◌≤◌, ◌≡◌, refl, true, none, some, List, [], ◌∷◌, ◌++◌, length}
use oh_my_api.Scheduler.Types.{Task}
use oh_my_api.Scheduler.Abort.{by_cancel}
use oh_my_api.Scheduler.Fallback.{new_fallback, final}
use oh_my_api.Scheduler.Fallback.Priority.{
  Record, limited, hard, soft, record_all, final_priority, closed_softs, Verdict, last_hard,
  last_soft, only_limited, held, softs,
}
use oh_my_api.Scheduler.Leaf.Retries.{sends}
use oh_my_api.Scheduler.Leaf.Reports.{Reaches}
use oh_my_api.Scheduler.Failover.{DeferredTask, Run, start, first_pass, second_pass, execute}
use oh_my_api.Scheduler.Failover.Bounds.{execute-sends}
use oh_my_api.Scheduler.Failover.Winner.{WinnerIs, GivenBy, execute-winner}
use oh_my_api.Scheduler.Failover.Cancel.{ended_by, passes_dead}
use oh_my_api.Scheduler.Failover.Isolation.{IsKeyOf, execute-Reaches}
use oh_my_api.Examples.Scheduler.Upstreams.{
  env, env_with, meter_with, world, world_with, down, broke, good, result_of,
}

abbrev tasks : List Task
tasks = down ∷ broke ∷ good ∷ []

abbrev failures : List Record
failures =
    limited
    ∷ hard (result_of down 500)
    ∷ soft (result_of good 200)
    ∷ soft (result_of broke 200)
    ∷ []

final_priority_example :
    (final (record_all failures new_fallback)).0
    ≡ Verdict (last_hard none failures) (last_soft none failures) (only_limited failures)
final_priority_example = final_priority failures

closed_softs_example :
    let f = record_all failures new_fallback in f.closed ++ held f.last_soft_result ≡ softs failures
closed_softs_example = closed_softs failures

execute-sends_example :
    sends env (meter_with none) (execute env tasks world).1
    ≤ sends env (meter_with none) world + 3 * length tasks
execute-sends_example = execute-sends env (meter_with none) tasks world

execute-winner_example :
    WinnerIs (GivenBy env (env.minute world.net) tasks) (execute env tasks world).0
execute-winner_example = execute-winner env tasks world

execute-Reaches_example :
    Reaches (IsKeyOf tasks) (length tasks) world.health (execute env tasks world).1.health
execute-Reaches_example = execute-Reaches env tasks world

abbrev put_off : DeferredTask
put_off = record { task = broke; wait_for_rate_limit = true }

abbrev begun : Run (env_with (some by_cancel))
begun = start (env_with (some by_cancel)) (world_with (some by_cancel))

passes_dead_example :
    (first_pass (env_with (some by_cancel)) 600 tasks begun
      ≡ ended_by (env_with (some by_cancel)) by_cancel begun)
    × (second_pass (env_with (some by_cancel)) (put_off ∷ []) begun
        ≡ ended_by (env_with (some by_cancel)) by_cancel begun)
passes_dead_example =
    passes_dead (env_with (some by_cancel)) by_cancel 600 down (broke ∷ good ∷ []) put_off [] begun
      refl refl
