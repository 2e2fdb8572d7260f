-- ===== src/Scheduler/Adaptive/Remaining.antt =====
-- Which candidates the adaptive loop comes to after it has taken the unhealthy ones out.
use mathlib.Core.Option.{some-injective}
use oh_my_api.Base.{
  ℕ, zero, suc, ◌+◌, ◌≡◌, refl, sym, ap, subst, ◌∙◌, inl, inr, Bool, true, none, some, List, [],
  ◌∷◌, keep, get_elem?, arith, Bool-cases, Option-cases, text_eq_refl, if◌then◌else◌,
}
use oh_my_api.Health.{Checker, is_healthy}
use oh_my_api.Scheduler.Types.{Task}
use oh_my_api.Scheduler.Fallback.{Fallback}
use oh_my_api.Scheduler.World.{Env, World}
use oh_my_api.Scheduler.Failover.{stop_sequential}
use oh_my_api.Scheduler.LoadBalance.{settle_outcome, try_task}
use oh_my_api.Scheduler.Tracker.{LatencyTracker, drop}
use oh_my_api.Scheduler.Adaptive.{
  health_key, is_kept, remove_unhealthy_from_remaining, Step, finished, again, round, loop,
}

-- How many of the first `i` candidates are taken out.
abbrev pub removed_before : (Task → Bool) → ℕ → List Task → ℕ
removed_before p zero tasks = 0
removed_before p (suc i) [] = 0
removed_before p (suc i) (t ∷ tasks) = let n = removed_before p i tasks in if p t then n else suc n

drop-suc : (n : ℕ) (xs : List Task) → drop (suc n) xs ≡ drop 1 (drop n xs)
drop-suc zero xs = refl
drop-suc (suc n) [] = refl
drop-suc (suc n) (x ∷ xs) = drop-suc n xs

drop-keep :
    (p : Task → Bool) (tasks : List Task) (i : ℕ) (task : Task)
    → get_elem? tasks i ≡ some task
    → p task ≡ true
    → drop (suc i) (keep p tasks) ≡ drop (removed_before p i tasks) (keep p (drop (suc i) tasks))
drop-keep p [] i task h k = cc
drop-keep p (t ∷ tasks) zero task h k = rw (some-injective t task h, k) refl
drop-keep p (t ∷ tasks) (suc i) task h k =
    let ih = drop-keep p tasks i task h k in
    elim (Bool-cases (p t)) [
      | inl e ↦ rw e ih
      | inr e ↦ rw e (
          drop-suc (suc i) (keep p tasks)
          ∙ ap (drop 1) ih
          ∙ sym (drop-suc (removed_before p i tasks) (keep p (drop (suc i) tasks))))
    ]

is_kept_self : (task : Task) → is_kept task task ≡ true
is_kept_self task = rw text_eq_refl refl

removal-drop :
    (now : ℕ) (task : Task) (health : Checker) (tasks : List Task) (i : ℕ)
    → get_elem? tasks i ≡ some task
    → drop (suc i) (remove_unhealthy_from_remaining now task health tasks) ≡ (
        if is_healthy health now (health_key task)
        then drop (suc i) tasks
        else drop
            (removed_before (is_kept task) i tasks)
            (keep (is_kept task) (drop (suc i) tasks)))
unfolding remove_unhealthy_from_remaining
removal-drop now task health tasks i h =
    elim (Bool-cases (is_healthy health now (health_key task))) [
      | inl e ↦ rw e refl
      | inr e ↦ rw e (drop-keep (is_kept task) tasks i task h (is_kept_self task))
    ]

module _ (env : Env) where
  -- What a round that does not end the loop leaves of the candidates.
  abbrev Leaves : Task → List Task → Step env → Type 0
  Leaves task tasks (finished o tr w) = tasks ≡ tasks
  Leaves task tasks (again rest tr w f) =
      rest ≡ remove_unhealthy_from_remaining (env.clock w.net) task w.health tasks

  round-Leaves :
      (task : Task) (tasks : List Task) (tr : LatencyTracker) (w : World env) (f : Fallback)
      → Leaves task tasks (round env task tasks tr w f)
  unfolding round
  round-Leaves task tasks tr w f =
      elim (Option-cases (stop_sequential (env.ctx_err w.net) none f).0) [
        | inr (a, e) ↦ rw (e, round) refl
        | inl e ↦
            let w1 = (try_task env task w).1 in
            let f1 = (stop_sequential (env.ctx_err w.net) none f).1 in
            elim (Option-cases (settle_outcome (env.ctx_err w1.net) (try_task env task w).0 f1).0) [
              | inr (o, d) ↦ rw (e, d, round) refl
              | inl d ↦ rw (e, d, round) refl
            ]
      ]

  -- A round for the candidate at an index that does not end the loop: it goes on at the next index,
  -- in the list that the round leaves, and what stands there from this index on are the candidates
  -- that stood behind this one, if its health key is still healthy after the round. When the round
  -- has made it unhealthy, they are those of them that are kept, but without the first ones: as many
  -- as were taken out in front of this candidate, which the loop so passes over.
  pub loop-round :
      (n i : ℕ) (task : Task) (tasks rest : List Task) (tr tr' : LatencyTracker) (w w' : World env)
      (f f' : Fallback)
      → get_elem? tasks i ≡ some task
      → round env task tasks tr w f ≡ again rest tr' w' f'
      → (loop env (suc n) i tasks tr w f ≡ loop env n (i + 1) rest tr' w' f')
        × (drop (i + 1) rest ≡ (
            if is_healthy w'.health (env.clock w'.net) (health_key task)
            then drop (i + 1) tasks
            else drop
                (removed_before (is_kept task) i tasks)
                (keep (is_kept task) (drop (i + 1) tasks))))
  unfolding loop
  loop-round n i task tasks rest tr tr' w w' f f' h k =
      let one : i + 1 ≡ suc i = omega arith in
      let left : rest ≡ remove_unhealthy_from_remaining (env.clock w'.net) task w'.health tasks =
        subst (Leaves task tasks) k (round-Leaves task tasks tr w f) in
      (
        rw (h, k, loop) refl,
        rw one (ap (drop (suc i)) left ∙ removal-drop (env.clock w'.net) task w'.health tasks i h),
      )
