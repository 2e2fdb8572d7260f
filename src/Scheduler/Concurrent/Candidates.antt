-- ===== src/Scheduler/Concurrent/Candidates.antt =====
-- Who takes part in a race.
use oh_my_api.Base.{
  ℕ, ◌≤◌, ◌≡◌, refl, inl, inr, Bool, true, false, List, [], ◌∷◌, length, arith, All, if◌then◌else◌,
  Bool-cases, Option-cases,
}
use oh_my_api.Scheduler.Types.{Task}
use oh_my_api.Scheduler.Abort.{entry_abort}
use oh_my_api.Scheduler.Windows.{is_provider_disabled_at, all_providers_disabled}
use oh_my_api.Scheduler.World.{Env, World}
use oh_my_api.Scheduler.Leaf.{allow_task}
use oh_my_api.Scheduler.Concurrent.{
  Entry, decided, racing, race_candidates, enter_race, race, execute_alive, execute,
}

module _ (env : Env) where
  -- Open at the minute, and nothing has happened but that tokens were taken.
  abbrev Chosen : ℕ → World env → List Task × World env → Type 0
  Chosen minute w (ts, w') =
      All (λ t. is_provider_disabled_at t minute ≡ false) ts
      × (w'.net ≡ w.net)
      × (w'.health ≡ w.health)

  cons_if :
      (minute : ℕ) (u : Task) (us : List Task) (ok : Bool)
      → is_provider_disabled_at u minute ≡ false
      → All (λ t. is_provider_disabled_at t minute ≡ false) us
      → All (λ t. is_provider_disabled_at t minute ≡ false) (if ok then u ∷ us else us)
  cons_if minute u us true h hs = (h, hs)
  cons_if minute u us false h hs = hs

  race_candidates-Chosen :
      (minute : ℕ) (ts : List Task) (w : World env)
      → Chosen minute w (race_candidates env minute ts w)
  unfolding race_candidates
  race_candidates-Chosen minute [] w = (tt, refl, refl)
  race_candidates-Chosen minute (t ∷ ts) w = elim (Bool-cases (is_provider_disabled_at t minute)) [
    | inl e ↦ rw (e, race_candidates) (race_candidates-Chosen minute ts w)
    | inr e ↦
        let w1 = (allow_task env t w).1 in
        let (open_ts, net, health) = race_candidates-Chosen minute ts w1 in
        rw (e, race_candidates)
          (
            cons_if minute t (race_candidates env minute ts w1).0 (allow_task env t w).0 e open_ts,
            net,
            health,
          )
  ]

  -- What is known when a race starts, in the world `w`.
  abbrev pub Races : ℕ → World env → Entry × World env → Type 0
  Races minute w (decided o, w') = Unit {0}
  Races minute w (racing ts, w') = (2 ≤ length ts) × Chosen minute w (ts, w')

  enter-Races :
      (minute : ℕ) (w : World env) (p : List Task × World env)
      → Chosen minute w p
      → Races minute w (enter_race env p)
  enter-Races minute w ([], w') h = tt
  enter-Races minute w (t ∷ [], w') h = tt
  enter-Races minute w (t ∷ u ∷ ts, w') h = (omega arith, h)

  race-Races : (minute : ℕ) (ts : List Task) (w : World env) → Races minute w (race env minute ts w)
  unfolding race
  race-Races minute ts w = elim (Bool-cases (all_providers_disabled ts minute)) [
    | inl e ↦ rw e tt
    | inr e ↦ rw e (
        enter-Races minute w (race_candidates env minute ts w) (race_candidates-Chosen minute ts w))
  ]

  -- If Execute comes to a race, it has two candidates or more, all of them open at the present
  -- minute; and up to then no exchange with an upstream was made and no health was changed.
  pub execute-Races :
      (tasks : List Task) (w : World env) → Races (env.minute w.net) w (execute env tasks w)
  unfolding execute
  execute-Races [] w = tt
  execute-Races (t ∷ ts) w = elim (Option-cases (entry_abort (env.ctx_err w.net))) [
    | inr (e, h) ↦ rw (h, execute) tt
    | inl h ↦ rw (h, execute) (alive ts)
  ]
    where
      alive :
          (us : List Task)
          → Races (env.minute w.net) w (execute_alive env (env.minute w.net) (t ∷ us) w)
      alive [] = tt
      alive (u ∷ us) = race-Races (env.minute w.net) (t ∷ u ∷ us) w
