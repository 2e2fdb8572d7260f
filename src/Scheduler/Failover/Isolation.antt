-- ===== src/Scheduler/Failover/Isolation.antt =====
-- What a run of the failover strategy does to the health of the upstreams.
use oh_my_api.Base.{
  ℕ, ◌+◌, ◌≤◌, ◌≡◌, refl, sym, subst, ◌∙◌, ap, inl, inr, Bool, Option, none, some, List, [], ◌∷◌,
  arith, length, length-append, All, All-append, All-map, Some, Text,
}
use oh_my_api.Health.{Checker}
use oh_my_api.Scheduler.Types.{Err, Task, Outcome, other_error}
use oh_my_api.Scheduler.Fallback.{Fallback}
use oh_my_api.Scheduler.World.{Env, World}
use oh_my_api.Scheduler.Leaf.{allow_task}
use oh_my_api.Scheduler.Leaf.Reports.{
  Reaches, stay, followed, from_same, loosened, wider, key_of, execute_task-Reaches,
}
use oh_my_api.Scheduler.Failover.Steps.{
  limited_world, skipped, deferred, tried, consider-cases, tried_now, tried_later, not_waited,
  given_up, retry_deferred-cases, over, ended, worked, round-cases, turned_away, started,
  execute-cases,
}
use oh_my_api.Scheduler.Failover.{
  DeferredTask, Run, attempt, defer, stopped, stop_with, stop_sequential, consider, wait_task,
  retry_deferred, round, first_pass, second_pass, passes, start, execute,
}

module _ (env : Env) (IsKey : Text → Type 0) where
  abbrev health_of : Run env → Checker
  health_of run = run.world.health

  -- From `c` on at most `most` reports were made, a report of each deferred candidate included.
  abbrev Since : Checker → ℕ → Run env → Type 0
  Since c most run =
      (n : ℕ) × Reaches IsKey n c run.world.health
      × (n + length run.deferred ≤ most)
      × All (λ d. IsKey (key_of d.task)) run.deferred

  attempt-Reaches :
      (task : Task) (run : Run env) (w : World env)
      → IsKey (key_of task)
      → w.health ≡ run.world.health
      → Reaches IsKey 1 run.world.health (attempt env task (record run { world = w })).world.health
  unfolding attempt
  attempt-Reaches task run w k same =
      from_same same (wider (λ x e. subst IsKey (sym e) k) (execute_task-Reaches env task w))

  attempt-Since :
      (c : Checker) (most : ℕ) (task : Task) (run : Run env) (w : World env)
      → IsKey (key_of task)
      → w.health ≡ run.world.health
      → Since c most run
      → Since c (most + 1) (attempt env task (record run { world = w }))
  unfolding attempt
  attempt-Since c most task run w k same (n, r, le, d) =
      (n + 1, followed r (attempt-Reaches task run w k same), omega (arith, le), d)

  stop_with-Since :
      (c : Checker) (most : ℕ) (stop : Option Err) (f : Fallback) (run : Run env)
      → Since c most run
      → Since c most (stop_with env stop f run)
  stop_with-Since c most none f run s = s
  stop_with-Since c most (some a) f run s = s

  stopped-Since :
      (c : Checker) (most : ℕ) (err : Option Err) (run : Run env)
      → Since c most run
      → Since c most (stopped env err run)
  stopped-Since c most err run s =
      let (stop, f) = stop_sequential (env.ctx_err run.world.net) err run.fallback in
      stop_with-Since c most stop f run s

  Since-more :
      (c : Checker) {most more : ℕ} (run : Run env)
      → most ≤ more
      → Since c most run
      → Since c more run
  Since-more c run h (n, r, le, d) = (n, r, omega (arith, h, le), d)

  defer-Since :
      (c : Checker) (most : ℕ) (waits : Bool) (task : Task) (run : Run env) (w : World env)
      → IsKey (key_of task)
      → w.health ≡ run.world.health
      → Since c most run
      → Since c (most + 1) (defer env waits task (record run { world = w }))
  defer-Since c most waits task run w k same (n, r, le, d) =
      let put = record { task = task; wait_for_rate_limit = waits } ∷ [] in
      (
        n,
        subst (Reaches IsKey n c) (sym same) r,
        omega (arith, le, length-append run.deferred put),
        All-append (λ x. IsKey (key_of x.task)) run.deferred put d (k, tt),
      )

  limited_world-health :
      (task : Task) (w : World env) → (limited_world env task w).health ≡ w.health
  unfolding allow_task
  limited_world-health task w = refl

  wait_task-health : (task : Task) (w : World env) → (wait_task env task w).1.health ≡ w.health
  unfolding wait_task
  wait_task-health task w = refl

  consider-Since :
      (c : Checker) (most minute : ℕ) (task : Task) (run : Run env)
      → IsKey (key_of task)
      → Since c most run
      → Since c (most + 1) (consider env minute task run)
  consider-Since c most minute task run k s =
      let S = Since c (most + 1) in
      let w = limited_world env task run.world in
      let same = limited_world-health task run.world in
      elim (consider-cases env minute task run) [
        | skipped e ↦ subst S (sym e) (Since-more c run (omega arith) s)
        | deferred waits v (inl h) o e ↦
            subst S (sym e) (defer-Since c most waits task run v k (ap (λ x. x.health) h) s)
        | deferred waits v (inr h) o e ↦
            let h' = ap (λ x. x.health) h ∙ same in
            subst S (sym e) (defer-Since c most waits task run v k h' s)
        | tried o e ↦ subst S (sym e) (attempt-Since c most task run w k same s)
      ]

  abbrev Reached : Checker → ℕ → Run env → Type 0
  Reached c most run = Reaches IsKey most c run.world.health

  stop_with-Reached :
      (c : Checker) (most : ℕ) (stop : Option Err) (f : Fallback) (run : Run env)
      → Reached c most run
      → Reached c most (stop_with env stop f run)
  stop_with-Reached c most none f run r = r
  stop_with-Reached c most (some a) f run r = r

  stopped-Reached :
      (c : Checker) (most : ℕ) (err : Option Err) (run : Run env)
      → Reached c most run
      → Reached c most (stopped env err run)
  stopped-Reached c most err run r =
      let (stop, f) = stop_sequential (env.ctx_err run.world.net) err run.fallback in
      stop_with-Reached c most stop f run r

  retry_deferred-Reached :
      (c : Checker) (most : ℕ) (d : DeferredTask) (run : Run env)
      → IsKey (key_of d.task)
      → Reached c most run
      → Reached c (most + 1) (retry_deferred env d run)
  retry_deferred-Reached c most d run k r =
      let R = Reached c (most + 1) in
      let w = limited_world env d.task run.world in
      let v = (wait_task env d.task w).1 in
      let same = limited_world-health d.task run.world in
      let same' = wait_task-health d.task w ∙ same in
      elim (retry_deferred-cases env d run) [
        | tried_now e ↦ subst R (sym e) (followed r (attempt-Reaches d.task run w k same))
        | tried_later e ↦ subst R (sym e) (followed r (attempt-Reaches d.task run v k same'))
        | not_waited e ↦
            let r' = subst (Reaches IsKey most c) (sym same') r in
            subst R (sym e) (
              loosened (omega arith)
                (stopped-Reached c most (some (other_error [])) (record run { world = v }) r'))
        | given_up e ↦
            subst R (sym e) (loosened (omega arith) (subst (Reaches IsKey most c) (sym same) r))
      ]

  first_pass-Since :
      (c : Checker) (most limit minute : ℕ) (tasks : List Task) (run : Run env)
      → most + length tasks ≤ limit
      → All (λ t. IsKey (key_of t)) tasks
      → Since c most run
      → Since c limit (first_pass env minute tasks run)
  unfolding first_pass
  first_pass-Since c most limit minute [] run le k s = Since-more c run (omega (arith, le)) s
  first_pass-Since c most limit minute (t ∷ ts) run le k s =
      let next = round env (consider env minute t) run in
      let halt = stopped-Since c most none run s in
      let s' : Since c (most + 1) next = elim (round-cases env (consider env minute t) run) [
        | over e ↦ subst (Since c (most + 1)) (sym e) (Since-more c run (omega arith) s)
        | ended e ↦
            subst (Since c (most + 1)) (sym e)
              (Since-more c (stopped env none run) (omega arith) halt)
        | worked e ↦
            subst (Since c (most + 1)) (sym e)
              (consider-Since c most minute t (stopped env none run) k.0 halt)
      ] in
      first_pass-Since c (most + 1) limit minute ts next (omega (arith, le)) k.1 s'

  second_pass-Reached :
      (c : Checker) (most limit : ℕ) (ds : List DeferredTask) (run : Run env)
      → most + length ds ≤ limit
      → All (λ d. IsKey (key_of d.task)) ds
      → Reached c most run
      → Reached c limit (second_pass env ds run)
  unfolding second_pass
  second_pass-Reached c most limit [] run le k r = loosened (omega (arith, le)) r
  second_pass-Reached c most limit (d ∷ ds) run le k r =
      let next = round env (retry_deferred env d) run in
      let R = Reached c (most + 1) in
      let halt = stopped-Reached c most none run r in
      let r' : Reached c (most + 1) next = elim (round-cases env (retry_deferred env d) run) [
        | over e ↦ subst R (sym e) (loosened (omega arith) r)
        | ended e ↦ subst R (sym e) (loosened (omega arith) halt)
        | worked e ↦
            subst R (sym e) (retry_deferred-Reached c most d (stopped env none run) k.0 halt)
      ] in
      second_pass-Reached c (most + 1) limit ds next (omega (arith, le)) k.1 r'

  passes-Reaches :
      (minute : ℕ) (tasks : List Task) (w : World env)
      → All (λ t. IsKey (key_of t)) tasks
      → Reaches IsKey (length tasks) w.health (passes env minute tasks w).world.health
  passes-Reaches minute tasks w k =
      let run = first_pass env minute tasks (start env w) in
      let begun : Since w.health 0 (start env w) = (0, stay 0 w.health, omega arith, tt) in
      let (n, r, le, d) =
        first_pass-Since w.health 0 (length tasks) minute tasks (start env w) (omega arith) k
          begun in
      second_pass-Reached w.health n (length tasks) run.deferred run le d r

abbrev pub IsKeyOf : List Task → Text → Type 0
IsKeyOf tasks k = Some (λ t. k ≡ key_of t) tasks

key_each : (tasks : List Task) → All (λ t. IsKeyOf tasks (key_of t)) tasks
key_each [] = tt
key_each (t ∷ ts) = (inl refl, All-map (λ x h. inr h) ts (key_each ts))

module _ (env : Env) where
  -- What a run does to the health of the upstreams is a history of reports: each is about the key
  -- of a candidate, and there are at most as many as candidates.
  pub execute-Reaches :
      (tasks : List Task) (w : World env)
      → Reaches (IsKeyOf tasks) (length tasks) w.health (execute env tasks w).1.health
  execute-Reaches tasks w =
      let R =
        λ (p : Outcome × World env). Reaches (IsKeyOf tasks) (length tasks) w.health p.1.health in
      elim (execute-cases env tasks w) [
        | turned_away err e ↦ subst R (sym e) (stay (length tasks) w.health)
        | started a d e ↦
            let minute = env.minute w.net in
            subst R (sym e) (passes-Reaches env (IsKeyOf tasks) minute tasks w (key_each tasks))
      ]
