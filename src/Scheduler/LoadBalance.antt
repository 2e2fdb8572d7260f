-- ===== src/Scheduler/LoadBalance.antt =====
-- internal/scheduler/loadbalance.go: LoadBalanceStrategy without sticky sessions, weighted random
-- choices among the healthy candidates until one succeeds. `rand n` is the random source in the
-- round with `n` items left; the number of candidates bounds the rounds. Logs are left out.
pub mod Rounds
pub mod StickyLoop
use oh_my_api.Base.{
  ℕ, zero, suc, Bool, true, false, not, ◌&&◌, ◌||◌, Option, none, some, List, [], ◌∷◌, keep, all,
  length, get_elem?, if◌then◌else◌, Text,
}
use oh_my_api.Health.{Checker, is_healthy, make_health_key}
use oh_my_api.Scheduler.Types.{
  Err, rate_limit, no_tasks, no_provider_available, success, hard_failure, soft_failure, Task,
  Result, Outcome, result, error,
}
use oh_my_api.Scheduler.Abort.{Abort, entry_abort}
use oh_my_api.Scheduler.Fallback.{
  Fallback, new_fallback, discard_soft_result, record_rate_limit, record_hard_result,
  record_hard_error, record_soft_result, final,
}
use oh_my_api.Scheduler.Selector.{
  SelectorItem, WeightedSelector, new_weighted_selector, is_empty, select, remove_task,
  remove_by_health_key,
}
use oh_my_api.Scheduler.Windows.{is_provider_disabled_at}
use oh_my_api.Scheduler.World.{Env, World}
use oh_my_api.Scheduler.Leaf.{allow_task, execute_task}
use oh_my_api.Scheduler.Failover.{stop_sequential}

-- removeUnhealthySiblingTasks
unfoldable pub remove_unhealthy_sibling_tasks :
    ℕ → Task → Checker → WeightedSelector → WeightedSelector
unfolding is_healthy remove_by_health_key
remove_unhealthy_sibling_tasks now task health s =
    let key = make_health_key task.provider_name task.outbound_protocol in
    if is_healthy health now key then s else remove_by_health_key key s

-- What a round makes of an outcome: what is returned at once, if anything, and the fallback.
unfoldable pub settle_outcome : Option Abort → Outcome → Fallback → Option Outcome × Fallback
unfolding stop_sequential
settle_outcome ctx (error (rate_limit p)) f = (none, record_rate_limit f)
settle_outcome ctx (error e) f =
    let (stop, f1) = stop_sequential ctx (some e) f in
    elim stop [ some a ↦ (some (error a), f1) | none ↦ (none, record_hard_error e f1) ]
settle_outcome ctx (result r) f = elim r.failure_kind [
  | success ↦ (some (result r), discard_soft_result f)
  | soft_failure ↦ (none, record_soft_result r f)
  | hard_failure ↦ (none, record_hard_result r f)
]

-- The item that the pointer is to; without one the loop ends.
abbrev pub item_at : Option ℕ → WeightedSelector → Option SelectorItem
item_at none s = none
item_at (some i) s = get_elem? s.items i

abbrev pub no_task : List Task → Bool
no_task [] = true
no_task (t ∷ ts) = false

module _ (env : Env) where
  -- filterHealthy
  unfoldable pub filter_healthy : ℕ → World env → List Task → List Task
  unfolding is_provider_disabled_at is_healthy
  filter_healthy minute w tasks =
      keep
        (λ t.
          not (is_provider_disabled_at t minute)
          && (env.cascade_ready w.net t.provider_name
              && is_healthy w.health (env.clock w.net)
                  (make_health_key t.provider_name t.outbound_protocol)))
        tasks

  -- allProvidersDisabledOrUnhealthy
  unfoldable pub all_providers_disabled_or_unhealthy : ℕ → World env → List Task → Bool
  unfolding is_provider_disabled_at is_healthy
  all_providers_disabled_or_unhealthy minute w tasks =
      not (no_task tasks)
      && all
          (λ t.
            is_provider_disabled_at t minute
            || not (
                is_healthy w.health (env.clock w.net)
                  (make_health_key t.provider_name t.outbound_protocol)))
          tasks

  -- LoadBalanceStrategy.executeTask: a token first, without waiting.
  unfoldable pub try_task : Task → World env → Outcome × World env
  try_task task w =
      let (ok, w1) = allow_task env task w in
      if ok then execute_task env task w1 else (error (rate_limit task.provider_name), w1)

  pub data Step : Type 0 where
    finished : Outcome → World env → Step
    again : WeightedSelector → World env → Fallback → Step

  unfoldable pub attempt_item :
      Option ℕ → SelectorItem → WeightedSelector → World env → Fallback → Step
  attempt_item pointer item s w f =
      let (o, w1) = try_task item.task w in
      let s1 =
        remove_unhealthy_sibling_tasks (env.clock w1.net) item.task w1.health
          (remove_task pointer s) in
      let (done, f1) = settle_outcome (env.ctx_err w1.net) o f in
      elim done [ some o' ↦ finished o' w1 | none ↦ again s1 w1 f1 ]

  -- One round of the loop.
  unfoldable pub round : (ℕ → ℕ) → WeightedSelector → World env → Fallback → Step
  round rand s w f =
      let (stop, f1) = stop_sequential (env.ctx_err w.net) none f in
      elim stop [
        | some a ↦ finished (error a) w
        | none ↦
            let pointer = select rand s in
            elim (item_at pointer s) [
              | none ↦ finished (final f1).0 w
              | some item ↦ attempt_item pointer item s w f1
            ]
      ]

  abbrev pub after :
      Step → (WeightedSelector → World env → Fallback → Outcome × World env) → Outcome × World env
  after (finished o w) rest = (o, w)
  after (again s w f) rest = rest s w f

  -- The loop, for at most so many rounds.
  unfoldable pub loop :
      (ℕ → ℕ → ℕ) → ℕ → WeightedSelector → World env → Fallback → Outcome × World env
  loop rand zero s w f = ((final f).0, w)
  loop rand (suc n) s w f = elim (is_empty s) [
    | true ↦ ((final f).0, w)
    | false ↦ after (round (rand (length s.items)) s w f) (loop rand n)
  ]

  -- LoadBalanceStrategy.Execute
  unfoldable pub execute : (ℕ → ℕ → ℕ) → List Task → World env → Outcome × World env
  execute rand tasks w =
      if no_task tasks then (error no_tasks, w) else elim (entry_abort (env.ctx_err w.net)) [
        | some e ↦ (error e, w)
        | none ↦
            let minute = env.minute w.net in
            let healthy = filter_healthy minute w tasks in
            if all_providers_disabled_or_unhealthy minute w tasks || no_task healthy
            then (error no_provider_available, w)
            else loop rand (length healthy) (new_weighted_selector healthy) w new_fallback
      ]
