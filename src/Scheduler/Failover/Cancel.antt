-- ===== src/Scheduler/Failover/Cancel.antt =====
-- A run whose context dies.
use oh_my_api.Base.{ℕ, ◌≡◌, refl, ◌∙◌, ap, none, some, List, [], ◌∷◌}
use oh_my_api.Scheduler.Types.{Task, Outcome, error}
use oh_my_api.Scheduler.Abort.{Abort, abort_err, should_stop_scheduling, abort_error}
use oh_my_api.Scheduler.Fallback.{Fallback, discard_soft_result}
use oh_my_api.Scheduler.World.{Env}
use oh_my_api.Scheduler.Failover.{
  DeferredTask, Run, stopped, stop_with, settle, stop_sequential, consider, retry_deferred, round,
  first_pass, second_pass,
}

stop_sequential_dead :
    (a : Abort) (f : Fallback)
    → stop_sequential (some a) none f ≡ (some (abort_err a), discard_soft_result f)
unfolding stop_sequential should_stop_scheduling abort_error
stop_sequential_dead a f = refl

module _ (env : Env) (a : Abort) where
  abbrev pub ended_by : Run env → Run env
  ended_by run = record run {
    returned = some (error (abort_err a));
    fallback = discard_soft_result run.fallback;
  }

  stopped_dead :
      (run : Run env) → env.ctx_err run.world.net ≡ some a → stopped env none run ≡ ended_by run
  stopped_dead run h =
      rw h (ap (λ p. stop_with env p.0 p.1 run) (stop_sequential_dead a run.fallback))

  round_dead :
      (body : Run env → Run env) (run : Run env)
      → env.ctx_err run.world.net ≡ some a
      → run.returned ≡ none
      → round env body run ≡ ended_by run
  unfolding round
  round_dead body run h e =
      let next = λ (k : Run env). settle env k.returned k (body k) in
      ap (λ o. settle env o run (next (stopped env none run))) e ∙ ap next (stopped_dead run h)

  -- What later rounds leave of a run that is over.
  round_over :
      (body : Run env → Run env) (run : Run env) (o : Outcome)
      → run.returned ≡ some o
      → round env body run ≡ run
  unfolding round
  round_over body run o e =
      let checked = stopped env none run in
      ap (λ k. settle env k run (settle env checked.returned checked (body checked))) e

  first_pass_over :
      (minute : ℕ) (tasks : List Task) (run : Run env) (o : Outcome)
      → run.returned ≡ some o
      → first_pass env minute tasks run ≡ run
  unfolding first_pass
  first_pass_over minute [] run o e = refl
  first_pass_over minute (t ∷ ts) run o e =
      ap (first_pass env minute ts) (round_over (consider env minute t) run o e)
      ∙ first_pass_over minute ts run o e

  second_pass_over :
      (ds : List DeferredTask) (run : Run env) (o : Outcome)
      → run.returned ≡ some o
      → second_pass env ds run ≡ run
  unfolding second_pass
  second_pass_over [] run o e = refl
  second_pass_over (d ∷ ds) run o e =
      ap (second_pass env ds) (round_over (retry_deferred env d) run o e)
      ∙ second_pass_over ds run o e

  -- Once the context is dead, a run that is not over and still has a candidate, in either loop,
  -- ends with the abort: it sends nothing more, reports nothing, takes no token, and drops the soft
  -- result that it held, with its body closed.
  pub passes_dead :
      (minute : ℕ) (task : Task) (tasks : List Task) (d : DeferredTask) (ds : List DeferredTask)
      (run : Run env)
      → env.ctx_err run.world.net ≡ some a
      → run.returned ≡ none
      → (first_pass env minute (task ∷ tasks) run ≡ ended_by run)
        × (second_pass env (d ∷ ds) run ≡ ended_by run)
  unfolding first_pass second_pass
  passes_dead minute task tasks d ds run h e =
      let o = error (abort_err a) in
      (
        ap (first_pass env minute tasks) (round_dead (consider env minute task) run h e)
            ∙ first_pass_over minute tasks (ended_by run) o refl,
        ap (second_pass env ds) (round_dead (retry_deferred env d) run h e)
            ∙ second_pass_over ds (ended_by run) o refl,
      )
