-- ===== src/Scheduler/Concurrent.antt =====
-- internal/scheduler/concurrent.go: ConcurrentStrategy.Execute, up to the race of Scheduler.Race: who
-- takes part, and what is returned without one. Logs are left out.
pub mod Candidates
use oh_my_api.Base.{
  ℕ, suc, ◌+◌, ◌≤◌, ◌≡◌, refl, Bool, true, false, ◌&&◌, Option, none, some, List, [], ◌∷◌, length,
  arith, All, if◌then◌else◌, Bool-cases,
}
use oh_my_api.Health.{report_failure, make_health_key}
use oh_my_api.Scheduler.Types.{
  Err, no_tasks, no_provider_available, all_rate_limited, rate_limit, other_error, Task, Outcome,
  error,
}
use oh_my_api.Scheduler.Abort.{should_stop_scheduling, abort_error, entry_abort}
use oh_my_api.Scheduler.Windows.{is_provider_disabled_at, all_providers_disabled}
use oh_my_api.Scheduler.World.{Env, World}
use oh_my_api.Scheduler.Leaf.{allow_task, execute_task}
use oh_my_api.Scheduler.Failover.{wait_task}

-- What Execute comes to: an outcome, or a race of these candidates.
pub data Entry : Type 0 where
  decided : Outcome → Entry
  racing : List Task → Entry

module _ (env : Env) where
  -- The loop of race over the candidates: those that are not disabled and get a token.
  unfoldable pub race_candidates : ℕ → List Task → World env → List Task × World env
  unfolding allow_task
  race_candidates minute [] w = ([], w)
  race_candidates minute (t ∷ ts) w = elim (is_provider_disabled_at t minute) [
    | true ↦ race_candidates minute ts w
    | false ↦
        let (ok, w1) = allow_task env t w in
        let (rest, w2) = race_candidates minute ts w1 in (if ok then t ∷ rest else rest, w2)
  ]

  abbrev pub decide : Outcome × World env → Entry × World env
  decide p = (decided p.0, p.1)

  -- A race of one is the candidate by itself.
  abbrev pub enter_race : List Task × World env → Entry × World env
  enter_race ([], w) = (decided (error all_rate_limited), w)
  enter_race (t ∷ [], w) = decide (execute_task env t w)
  enter_race (t ∷ u ∷ ts, w) = (racing (t ∷ u ∷ ts), w)

  -- race, up to the start of the attempts.
  unfoldable pub race : ℕ → List Task → World env → Entry × World env
  unfolding race_candidates
  race minute tasks w =
      if all_providers_disabled tasks minute
      then (decided (error no_provider_available), w)
      else enter_race (race_candidates minute tasks w)

  -- What follows a Wait that failed, with stopSequential.
  abbrev pub wait_failed : Task → World env → Outcome × World env
  wait_failed t w =
      if should_stop_scheduling (env.ctx_err w.net) (some (other_error []))
      then (error (abort_error (env.ctx_err w.net) (some (other_error []))), w)
      else (
        error (rate_limit t.provider_name),
        record w {
          health =
              report_failure (env.clock w.net) (make_health_key t.provider_name t.outbound_protocol)
                w.health;
        },
      )

  -- The case of one candidate.
  unfoldable pub execute_single : ℕ → Task → World env → Outcome × World env
  unfolding wait_task
  execute_single minute t w =
      let (came, w1) = wait_task env t w in
      if is_provider_disabled_at t minute
      then (error no_provider_available, w)
      else if came
      then execute_task env t w1
      else wait_failed t w1

  abbrev pub execute_alive : ℕ → List Task → World env → Entry × World env
  execute_alive minute [] w = (decided (error no_tasks), w)
  execute_alive minute (t ∷ []) w = decide (execute_single minute t w)
  execute_alive minute (t ∷ u ∷ ts) w = race minute (t ∷ u ∷ ts) w

  -- ConcurrentStrategy.Execute
  unfoldable pub execute : List Task → World env → Entry × World env
  execute [] w = (decided (error no_tasks), w)
  execute (t ∷ ts) w = elim (entry_abort (env.ctx_err w.net)) [
    | some e ↦ (decided (error e), w)
    | none ↦ execute_alive (env.minute w.net) (t ∷ ts) w
  ]
