-- ===== src/Examples/Scheduler/LoadBalance.antt =====
-- Runs of the load balancer (loadbalance.go, selector.go).
use oh_my_api.Base.{ℕ, ◌+◌, ◌-◌, ◌*◌, ◌≤◌, ◌≡◌, refl, none, some, List, [], ◌∷◌, arith, txt, length}
use oh_my_api.Scheduler.Types.{Task}
use oh_my_api.Scheduler.Fallback.{new_fallback}
use oh_my_api.Scheduler.Selector.{WeightedSelector, new_weighted_selector, select, item_of}
use oh_my_api.Scheduler.Selector.Weights.{new_weighted_selector-IsBalanced, select-weight}
use oh_my_api.Scheduler.Leaf.Retries.{sends}
use oh_my_api.Scheduler.LoadBalance.{loop}
use oh_my_api.Scheduler.LoadBalance.Rounds.{loop_terminates}
use oh_my_api.Scheduler.Sticky.{new_sticky_store}
use oh_my_api.Scheduler.LoadBalance.StickyLoop.{
  Session, no_candidates, collect, sticky_loop, execute_sticky_loop,
}
use oh_my_api.Scheduler.LoadBalance.StickyLoop.Progress.{execute_sticky_loop-sends}
use oh_my_api.Examples.Scheduler.Upstreams.{env, meter_with, world, down, broke, good}

abbrev tasks : List Task
tasks = down ∷ broke ∷ good ∷ []

-- The random source that always answers the last number below its argument.
abbrev last_below : ℕ → ℕ → ℕ
last_below round n = n - 1

abbrev selector : WeightedSelector
selector = new_weighted_selector tasks

select-weight_example : select (λ n. 3) selector ≡ some 1
unfolding new_weighted_selector item_of
select-weight_example =
    select-weight (item_of down ∷ []) (item_of broke) (item_of good ∷ []) (λ n. 3) selector
      (new_weighted_selector-IsBalanced tasks) refl (omega arith) (omega arith)

loop_terminates_example :
    loop env last_below 9 selector world new_fallback
    ≡ loop env last_below 3 selector world new_fallback
loop_terminates_example =
    loop_terminates env (meter_with none) last_below 9 tasks world new_fallback (omega arith)

abbrev session : Session
session = record { group = txt "group"; key_name = txt "key"; idle_timeout = 600 }

execute_sticky_loop-sends_example :
    (sends env (meter_with none) (execute_sticky_loop env session 0 tasks world new_sticky_store).1
      ≤ sends env (meter_with none) world + 3 * length tasks)
    × ((n : ℕ)
        → let c = collect no_candidates tasks in
          length c.remaining ≤ n
          → sticky_loop env session 0 c n c.remaining world new_sticky_store new_fallback
            ≡ execute_sticky_loop env session 0 tasks world new_sticky_store)
execute_sticky_loop-sends_example =
    execute_sticky_loop-sends env (meter_with none) session 0 tasks world new_sticky_store
