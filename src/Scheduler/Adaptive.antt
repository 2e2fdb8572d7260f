-- ===== src/Scheduler/Adaptive.antt =====
-- internal/scheduler/adaptive.go: AdaptiveStrategy, which tries the candidates in the order of their
-- scores. The loop runs over an index into a list that shrinks. The sample that an attempt leaves with
-- the tracker (recordAdaptiveTTFTIfNeeded of soft_failure.go) is recorded after the task has been
-- executed: only the last exchange of a task can be a success. The samples of other
-- strategies' attempts, which reach the same tracker, are outside; logs are left out.
pub mod Remaining
use oh_my_api.Base.{
  ℕ, zero, suc, ◌+◌, Bool, true, false, not, ◌&&◌, ◌||◌, ltb, Option, none, some, List, [], ◌∷◌,
  ◌++◌, map, keep, any, get_elem?, if◌then◌else◌, length, Text, text_eq,
}
use oh_my_api.Health.{Checker, is_healthy, make_health_key}
use oh_my_api.Scheduler.Types.{Task, Outcome, result, error, no_tasks, no_provider_available}
use oh_my_api.Scheduler.Abort.{entry_abort}
use oh_my_api.Scheduler.Fallback.{Fallback, new_fallback, final}
use oh_my_api.Scheduler.World.{Env, World}
use oh_my_api.Scheduler.Failover.{stop_sequential}
use oh_my_api.Scheduler.Leaf.{is_success}
use oh_my_api.Scheduler.LoadBalance.{
  filter_healthy, all_providers_disabled_or_unhealthy, no_task, try_task, settle_outcome,
}
use oh_my_api.Scheduler.LoadBalance.StickyLoop.{adaptive_candidate_key}
use oh_my_api.Scheduler.Tracker.{
  LatencyTracker, record_success, record_selection, get_stats, CandidateScore, rank_candidates,
}

abbrev pub health_key : Task → Text
health_key t = make_health_key t.provider_name t.outbound_protocol

-- Whether removeUnhealthyFromRemaining keeps a candidate, once the key is unhealthy.
abbrev pub is_kept : Task → Task → Bool
is_kept current t =
    text_eq (adaptive_candidate_key t) (adaptive_candidate_key current)
    || not (text_eq (health_key t) (health_key current))

-- removeUnhealthyFromRemaining
unfoldable pub remove_unhealthy_from_remaining : ℕ → Task → Checker → List Task → List Task
remove_unhealthy_from_remaining now current health tasks =
    if is_healthy health now (health_key current) then tasks else keep (is_kept current) tasks

-- The first candidate of a key that is not used yet, with the keys used after it.
unfoldable pub first_of : Text → List Text → List Task → Option Task
first_of key used [] = none
first_of key used (t ∷ tasks) =
    if not (any (text_eq (adaptive_candidate_key t)) used) && text_eq (adaptive_candidate_key t) key
    then some t
    else first_of key used tasks

-- The first loop of reorderByScores: the candidates in the order of the scores, and the used keys.
unfoldable pub by_scores : List CandidateScore → List Text → List Task → List Task × List Text
by_scores [] used tasks = ([], used)
by_scores (s ∷ scores) used tasks =
    let skipped = by_scores scores used tasks in
    let taken = by_scores scores (s.stats.key ∷ used) tasks in
    elim (first_of s.stats.key used tasks) [ none ↦ skipped | some t ↦ (t ∷ taken.0, taken.1) ]

-- reorderByScores
unfoldable pub reorder_by_scores : List Task → List CandidateScore → List Task
reorder_by_scores tasks scores =
    let p = by_scores scores [] tasks in
    p.0 ++ keep (λ t. not (any (text_eq (adaptive_candidate_key t)) p.1)) tasks

-- recordAdaptiveTTFTIfNeeded, after an attempt that ended at a time.
unfoldable pub record_adaptive_ttft : ℕ → Task → Outcome → LatencyTracker → LatencyTracker
record_adaptive_ttft now task (error e) tr = tr
record_adaptive_ttft now task (result r) tr =
    if is_success (result r) && ltb 0 r.stream_ttft
    then record_success (adaptive_candidate_key task)
        (record { ttft = r.stream_ttft; timestamp = now }) tr
    else tr

module _ (env : Env) where
  -- What a round leaves: an outcome that is returned, or the candidates for the next index.
  pub data Step : Type 0 where
    finished : Outcome → LatencyTracker → World env → Step
    again : List Task → LatencyTracker → World env → Fallback → Step

  -- A round of the loop, for the candidate at its index.
  unfoldable pub round : Task → List Task → LatencyTracker → World env → Fallback → Step
  round task tasks tr w f =
      let (stop, f1) = stop_sequential (env.ctx_err w.net) none f in
      elim stop [
        | some a ↦ finished (error a) tr w
        | none ↦
            let tr1 = record_selection (adaptive_candidate_key task) (env.clock w.net) tr in
            let (o, w1) = try_task env task w in
            let tr2 = record_adaptive_ttft (env.clock w1.net) task o tr1 in
            let (done, f2) = settle_outcome (env.ctx_err w1.net) o f1 in
            elim done [
              | some o' ↦ finished o' tr2 w1
              | none ↦
                  again (remove_unhealthy_from_remaining (env.clock w1.net) task w1.health tasks)
                    tr2 w1 f2
            ]
      ]

  abbrev pub after :
      Step
      → (List Task → LatencyTracker → World env → Fallback → Outcome × LatencyTracker × World env)
      → Outcome × LatencyTracker × World env
  after (finished o tr w) rest = (o, tr, w)
  after (again tasks tr w f) rest = rest tasks tr w f

  -- The loop from an index on, for at most so many rounds.
  unfoldable pub loop :
      ℕ
      → ℕ
      → List Task
      → LatencyTracker
      → World env
      → Fallback
      → Outcome × LatencyTracker × World env
  loop zero i tasks tr w f = ((final f).0, tr, w)
  loop (suc n) i tasks tr w f = elim (get_elem? tasks i) [
    | none ↦ ((final f).0, tr, w)
    | some task ↦ after (round task tasks tr w f) (loop n (i + 1))
  ]

  -- What follows the filter of the candidates.
  unfoldable pub execute_healthy :
      ℕ → List Task → LatencyTracker → World env → Outcome × LatencyTracker × World env
  execute_healthy now [] tr w = (error no_provider_available, tr, w)
  execute_healthy now (task ∷ []) tr w =
      let (o, w1) = try_task env task w in
      let tr1 = record_selection (adaptive_candidate_key task) now tr in
      (o, record_adaptive_ttft (env.clock w1.net) task o tr1, w1)
  execute_healthy now (t ∷ t' ∷ tasks) tr w =
      let healthy = t ∷ t' ∷ tasks in
      let scores = rank_candidates (get_stats (map adaptive_candidate_key healthy) now tr) now in
      let ordered = reorder_by_scores healthy scores in
      loop (length ordered) 0 ordered tr w new_fallback

  -- AdaptiveStrategy.Execute
  unfoldable pub execute :
      List Task → LatencyTracker → World env → Outcome × LatencyTracker × World env
  execute tasks tr w =
      if no_task tasks then (error no_tasks, tr, w) else elim (entry_abort (env.ctx_err w.net)) [
        | some e ↦ (error e, tr, w)
        | none ↦
            let minute = env.minute w.net in
            if all_providers_disabled_or_unhealthy env minute w tasks
            then (error no_provider_available, tr, w)
            else execute_healthy (env.clock w.net) (filter_healthy env minute w tasks) tr w
      ]
