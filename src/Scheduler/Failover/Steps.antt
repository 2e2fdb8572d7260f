-- ===== src/Scheduler/Failover/Steps.antt =====
-- The branches of the loop bodies of the failover strategy, as data.
use oh_my_api.Base.{
  ℕ, arith, ◌≡◌, refl, ◌∙◌, ◌⊎◌, inl, inr, Bool, true, false, Option, none, some, List, [], ◌∷◌,
  Bool-cases, Option-cases,
}
use oh_my_api.Health.{make_health_key, is_healthy}
use oh_my_api.Scheduler.Types.{Err, Task, Outcome, error, no_tasks, no_provider_available}
use oh_my_api.Scheduler.Abort.{Abort, entry_abort}
use oh_my_api.Scheduler.Windows.{is_provider_disabled_at, all_providers_disabled}
use oh_my_api.Scheduler.World.{Env, World}
use oh_my_api.Scheduler.Leaf.{allow_task}
use oh_my_api.Scheduler.Failover.{
  DeferredTask, Run, attempt, defer, stopped, consider, wait_task, wait_failed, retry_deferred,
  round, settle, passes, outcome_of, execute,
}

module _ (env : Env) where
  abbrev pub limited_world : Task → World env → World env
  limited_world task w = (allow_task env task w).1

  -- A candidate that the time ranges and the spoke sessions let through.
  abbrev pub IsOpen : ℕ → Task → World env → Type 0
  IsOpen minute task w =
      (is_provider_disabled_at task minute ≡ false)
      × (env.cascade_ready w.net task.provider_name ≡ true)

  pub data Considered (minute : ℕ) (task : Task) (run : Run env) : Type 0 where
    skipped : consider env minute task run ≡ run → Considered minute task run
    deferred :
        (waits : Bool) (w : World env)
        → ((w ≡ run.world) ⊎ (w ≡ limited_world task run.world))
        → IsOpen minute task run.world
        → consider env minute task run ≡ defer env waits task (record run { world = w })
        → Considered minute task run
    tried :
        IsOpen minute task run.world
        → consider env minute task run
          ≡ attempt env task (record run { world = limited_world task run.world })
        → Considered minute task run

  pub consider-cases : (minute : ℕ) (task : Task) (run : Run env) → Considered minute task run
  unfolding consider
  consider-cases minute task run =
      let w = run.world in
      let key = make_health_key task.provider_name task.outbound_protocol in
      elim (Bool-cases (is_provider_disabled_at task minute)) [
        | inl a ↦ skipped (rw a refl)
        | inr a ↦ elim (Bool-cases (env.cascade_ready w.net task.provider_name)) [
          | inr b ↦ skipped (rw (a, b) refl)
          | inl b ↦ elim (Bool-cases (is_healthy w.health (env.clock w.net) key)) [
            | inr c ↦ deferred false w (inl refl) (a, b) (rw (a, b, c) refl)
            | inl c ↦ elim (Bool-cases (allow_task env task w).0) [
              | inr d ↦
                  deferred true (limited_world task w) (inr refl) (a, b) (rw (a, b, c, d) refl)
              | inl d ↦ tried (a, b) (rw (a, b, c, d) refl)
            ]
          ]
        ]
      ]

  pub data Retried (d : DeferredTask) (run : Run env) : Type 0 where
    tried_now :
        retry_deferred env d run
          ≡ attempt env d.task (record run { world = limited_world d.task run.world })
        → Retried d run
    tried_later :
        retry_deferred env d run
          ≡ attempt env d.task
              (record run { world = (wait_task env d.task (limited_world d.task run.world)).1 })
        → Retried d run
    not_waited :
        retry_deferred env d run
          ≡ wait_failed env
              (record run { world = (wait_task env d.task (limited_world d.task run.world)).1 })
        → Retried d run
    given_up :
        retry_deferred env d run ≡ record run { world = limited_world d.task run.world }
        → Retried d run

  pub retry_deferred-cases : (d : DeferredTask) (run : Run env) → Retried d run
  unfolding retry_deferred
  retry_deferred-cases d run =
      let w = limited_world d.task run.world in
      elim (Bool-cases (allow_task env d.task run.world).0) [
        | inl a ↦ tried_now (rw a refl)
        | inr a ↦ elim (Bool-cases d.wait_for_rate_limit) [
          | inr b ↦ given_up (rw (a, b) refl)
          | inl b ↦ elim (Bool-cases (wait_task env d.task w).0) [
            | inl c ↦ tried_later (rw (a, b, c) refl)
            | inr c ↦ not_waited (rw (a, b, c) refl)
          ]
        ]
      ]

  -- A round leaves a run that is over alone, or ends it, or does the body.
  pub data Rounded (body : Run env → Run env) (run : Run env) : Type 0 where
    over : round env body run ≡ run → Rounded body run
    ended : round env body run ≡ stopped env none run → Rounded body run
    worked : round env body run ≡ body (stopped env none run) → Rounded body run

  settle-cases :
      (o : Option Outcome) (run next : Run env)
      → (settle env o run next ≡ run) ⊎ (settle env o run next ≡ next)
  settle-cases (some o) run next = inl refl
  settle-cases none run next = inr refl

  pub round-cases : (body : Run env → Run env) (run : Run env) → Rounded body run
  unfolding round
  round-cases body run =
      let checked = stopped env none run in
      elim (settle-cases run.returned run (settle env checked.returned checked (body checked))) [
        | inl e ↦ over e
        | inr e ↦ elim (settle-cases checked.returned checked (body checked)) [
          | inl k ↦ ended (e ∙ k)
          | inr k ↦ worked (e ∙ k)
        ]
      ]

  -- Whether a run starts.
  pub data Entered (tasks : List Task) (w : World env) : Type 0 where
    turned_away : (e : Err) → execute env tasks w ≡ (error e, w) → Entered tasks w
    started :
        env.ctx_err w.net ≡ none
        → all_providers_disabled tasks (env.minute w.net) ≡ false
        → execute env tasks w
          ≡ (let run = passes env (env.minute w.net) tasks w in (outcome_of env run, run.world))
        → Entered tasks w

  entry_abort-none : (ctx : Option Abort) → entry_abort ctx ≡ none → ctx ≡ none
  unfolding entry_abort
  entry_abort-none none h = refl
  entry_abort-none (some a) h = ground arith

  pub execute-cases : (tasks : List Task) (w : World env) → Entered tasks w
  unfolding execute
  execute-cases [] w = turned_away no_tasks refl
  execute-cases (task ∷ tasks) w = elim (Option-cases (entry_abort (env.ctx_err w.net))) [
    | inr (e, k) ↦ turned_away e (rw (k, execute) refl)
    | inl k ↦ elim (Bool-cases (all_providers_disabled (task ∷ tasks) (env.minute w.net))) [
      | inl d ↦ turned_away no_provider_available (rw (k, d, execute) refl)
      | inr d ↦ started (entry_abort-none (env.ctx_err w.net) k) d (rw (k, d, execute) refl)
    ]
  ]
