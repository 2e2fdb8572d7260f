-- ===== src/Scheduler/Failover/Winner.antt =====
-- Whose answer a run of the failover strategy returns.
use oh_my_api.Base.{
  ℕ, ◌≡◌, refl, sym, subst, inl, inr, false, Option, none, some, List, [], ◌∷◌, arith, Bool-cases,
  Option-cases, All, All-append, All-map, Some,
}
use oh_my_api.Scheduler.Types.{Err, Task, Result, Outcome, result, error, other_error}
use oh_my_api.Scheduler.Abort.{Abort, should_stop_scheduling}
use oh_my_api.Scheduler.Fallback.{
  Fallback, new_fallback, discard_soft_result, record_hard_result, record_hard_error,
  record_soft_result, final,
}
use oh_my_api.Scheduler.Windows.{is_provider_disabled_at}
use oh_my_api.Scheduler.World.{Env, World}
use oh_my_api.Scheduler.Leaf.{execute_task}
use oh_my_api.Scheduler.Failover.Steps.{
  limited_world, skipped, deferred, tried, consider-cases, tried_now, tried_later, not_waited,
  given_up, retry_deferred-cases, over, ended, worked, round-cases, turned_away, started,
  execute-cases,
}
use oh_my_api.Scheduler.Failover.{
  DeferredTask, Run, attempt, stopped, stop_with, stop_sequential, handle_attempt_outcome, consider,
  wait_task, retry_deferred, round, first_pass, second_pass, passes, start, outcome_of, execute,
}

-- What holds of an outcome, where it is a result.
abbrev pub WinnerIs : (Result → Type 0) → Outcome → Type 0
WinnerIs P (result r) = P r
WinnerIs P (error e) = Unit

module _ (P : Result → Type 0) where
  abbrev Kept : Option Result → Type 0
  Kept none = Unit
  Kept (some r) = P r

  abbrev Returned : Option Outcome → Type 0
  Returned none = Unit
  Returned (some o) = WinnerIs P o

  abbrev Fine : Fallback → Type 0
  Fine f = Kept f.last_hard_result × Kept f.last_soft_result

  final-WinnerIs : (f : Fallback) → Fine f → WinnerIs P (final f).0
  unfolding final
  final-WinnerIs f (hard, soft) = ground arith

  stop_sequential-Fine :
      (ctx : Option Abort) (err : Option Err) (f : Fallback)
      → Fine f
      → Fine (stop_sequential ctx err f).1
  unfolding stop_sequential discard_soft_result
  stop_sequential-Fine ctx err f h = elim (Bool-cases (should_stop_scheduling ctx err)) [
    | inl e ↦ rw (e, stop_sequential) (h.0, tt)
    | inr e ↦ rw (e, stop_sequential) h
  ]

  handle_attempt_outcome-Fine :
      (ctx : Option Abort) (o : Outcome) (f : Fallback)
      → WinnerIs P o
      → Fine f
      → let (done, f1) = handle_attempt_outcome ctx o f in Returned done × Fine f1
  unfolding handle_attempt_outcome discard_soft_result record_hard_result record_hard_error
      record_soft_result
  handle_attempt_outcome-Fine ctx (error e) f p h =
      elim (Option-cases (stop_sequential ctx (some e) f).0) [
        | inl k ↦ rw (k, handle_attempt_outcome) (tt, (tt, tt))
        | inr (a, k) ↦ rw (k, handle_attempt_outcome) (tt, stop_sequential-Fine ctx (some e) f h)
      ]
  handle_attempt_outcome-Fine ctx (result r) f p h = ground arith

WinnerIs-each :
    (P : Result → Type 0) (o : Outcome) → ((r : Result) → o ≡ result r → P r) → WinnerIs P o
WinnerIs-each P (result r) f = f r refl
WinnerIs-each P (error e) f = tt

module _ (env : Env) (P : Result → Type 0) where
  -- Whenever the candidate is tried, its result satisfies the predicate.
  abbrev Gives : Task → Type 0
  Gives task = (w : World env) → WinnerIs P (execute_task env task w).0

  abbrev Waiting : DeferredTask → Type 0
  Waiting d = Gives d.task

  abbrev Good : Run env → Type 0
  Good run = Returned P run.returned × Fine P run.fallback × All Waiting run.deferred

  attempt-Good : (task : Task) (run : Run env) → Gives task → Good run → Good (attempt env task run)
  unfolding attempt
  attempt-Good task run p (r, f, d) =
      let (o, w) = execute_task env task run.world in
      let (r', f') =
        handle_attempt_outcome-Fine P (env.ctx_err w.net) o run.fallback (p run.world) f in
      (r', f', d)

  stop_with-Good :
      (stop : Option Err) (f : Fallback) (run : Run env)
      → Fine P f
      → Good run
      → Good (stop_with env stop f run)
  stop_with-Good none f run k (r, _, d) = (r, k, d)
  stop_with-Good (some a) f run k (r, _, d) = (tt, k, d)

  stopped-Good : (err : Option Err) (run : Run env) → Good run → Good (stopped env err run)
  stopped-Good err run (r, f, d) =
      let ctx = env.ctx_err run.world.net in
      let (stop, f1) = stop_sequential ctx err run.fallback in
      stop_with-Good stop f1 run (stop_sequential-Fine P ctx err run.fallback f) (r, f, d)

  consider-Good :
      (minute : ℕ) (task : Task) (run : Run env)
      → (is_provider_disabled_at task minute ≡ false → Gives task)
      → Good run
      → Good (consider env minute task run)
  consider-Good minute task run p g = elim (consider-cases env minute task run) [
    | skipped e ↦ subst Good (sym e) g
    | deferred waits w _ o e ↦
        subst Good (sym e) (g.0, g.1, All-append Waiting run.deferred _ g.2 (p o.0, tt))
    | tried o e ↦
        subst Good (sym e)
          (attempt-Good task (record run { world = limited_world env task run.world }) (p o.0) g)
  ]

  retry_deferred-Good :
      (d : DeferredTask) (run : Run env) → Waiting d → Good run → Good (retry_deferred env d run)
  retry_deferred-Good d run p g =
      let w = limited_world env d.task run.world in
      let waited = record run { world = (wait_task env d.task w).1 } in
      elim (retry_deferred-cases env d run) [
        | tried_now e ↦ subst Good (sym e) (attempt-Good d.task (record run { world = w }) p g)
        | tried_later e ↦ subst Good (sym e) (attempt-Good d.task waited p g)
        | not_waited e ↦ subst Good (sym e) (stopped-Good (some (other_error [])) waited g)
        | given_up e ↦ subst Good (sym e) g
      ]

  round-Good :
      (body : Run env → Run env) (run : Run env)
      → ((x : Run env) → Good x → Good (body x))
      → Good run
      → Good (round env body run)
  round-Good body run step g = elim (round-cases env body run) [
    | over e ↦ subst Good (sym e) g
    | ended e ↦ subst Good (sym e) (stopped-Good none run g)
    | worked e ↦ subst Good (sym e) (step (stopped env none run) (stopped-Good none run g))
  ]

  first_pass-Good :
      (minute : ℕ) (tasks : List Task) (run : Run env)
      → All (λ t. is_provider_disabled_at t minute ≡ false → Gives t) tasks
      → Good run
      → Good (first_pass env minute tasks run)
  unfolding first_pass
  first_pass-Good minute [] run p g = g
  first_pass-Good minute (task ∷ tasks) run p g =
      first_pass-Good minute tasks (round env (consider env minute task) run) p.1
        (round-Good (consider env minute task) run (λ x k. consider-Good minute task x p.0 k) g)

  second_pass-Good :
      (ds : List DeferredTask) (run : Run env)
      → All Waiting ds
      → Good run
      → Good (second_pass env ds run)
  unfolding second_pass
  second_pass-Good [] run p g = g
  second_pass-Good (d ∷ ds) run p g =
      second_pass-Good ds (round env (retry_deferred env d) run) p.1
        (round-Good (retry_deferred env d) run (λ x k. retry_deferred-Good d x p.0 k) g)

  passes-Good :
      (minute : ℕ) (tasks : List Task) (w : World env)
      → All (λ t. is_provider_disabled_at t minute ≡ false → Gives t) tasks
      → Good (passes env minute tasks w)
  unfolding new_fallback
  passes-Good minute tasks w p =
      let run = first_pass env minute tasks (start env w) in
      let g = first_pass-Good minute tasks (start env w) p (tt, (tt, tt), tt) in
      second_pass-Good run.deferred run g.2 g

  outcome_of-WinnerIs : (run : Run env) → Good run → WinnerIs P (outcome_of env run)
  outcome_of-WinnerIs run g = elim (Option-cases run.returned) [
    | inl k ↦ rw k (final-WinnerIs P run.fallback g.1)
    | inr (o, k) ↦ rw k (subst (Returned P) k g.0)
  ]

module _ (env : Env) where
  -- An execution of the candidate has given this result.
  abbrev pub Gave : Result → Task → Type 0
  Gave r t = (w : World env) × ((execute_task env t w).0 ≡ result r)

  -- A candidate that the time ranges allow has given it.
  abbrev pub GivenBy : ℕ → List Task → Result → Type 0
  GivenBy minute tasks r = Some (λ t. (is_provider_disabled_at t minute ≡ false) × Gave r t) tasks

  Gives-each :
      (minute : ℕ) (tasks : List Task)
      → All
          (λ t. is_provider_disabled_at t minute ≡ false → Gives env (GivenBy minute tasks) t)
          tasks
  Gives-each minute [] = tt
  Gives-each minute (t ∷ ts) = (
    (λ e w.
        WinnerIs-each (GivenBy minute (t ∷ ts)) (execute_task env t w).0 (λ r k. inl (e, (w, k)))),
    All-map
        (λ x f e w.
          WinnerIs-each (GivenBy minute (t ∷ ts)) (execute_task env x w).0
            (λ r k. inr (subst (WinnerIs (GivenBy minute ts)) k (f e w))))
        ts (Gives-each minute ts),
  )

  -- A result that a run returns is what executeTask gives, in some state of the world, for one of its
  -- candidates which the candidate's time ranges do not exclude at the minute in which the run starts.
  pub execute-winner :
      (tasks : List Task) (w : World env)
      → WinnerIs (GivenBy (env.minute w.net) tasks) (execute env tasks w).0
  execute-winner tasks w =
      let minute = env.minute w.net in
      let P = GivenBy minute tasks in
      let Q = λ (o : Outcome × World env). WinnerIs P o.0 in
      elim (execute-cases env tasks w) [
        | turned_away err e ↦ subst Q (sym e) tt
        | started a d e ↦
            let run = passes env minute tasks w in
            subst Q (sym e) (
              outcome_of-WinnerIs env P run
                (passes-Good env P minute tasks w (Gives-each minute tasks)))
      ]
