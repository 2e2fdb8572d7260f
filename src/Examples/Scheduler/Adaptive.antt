-- ===== src/Examples/Scheduler/Adaptive.antt =====
-- Runs of the adaptive strategy (adaptive.go, adaptive_tracker.go, adaptive_score.go).
use oh_my_api.Base.{
  ℕ, ◌≡◌, refl, none, some, List, [], ◌∷◌, map, if◌then◌else◌, Text, txt, insert, lookup, text_eq,
  trim_space, trim_left,
}
use oh_my_api.Health.{
  Checker, new_checker, is_healthy, mark_unhealthy_for, mark_with, cooldown_of, make_health_key,
}
use oh_my_api.Scheduler.Types.{Task}
use oh_my_api.Scheduler.Fallback.{Fallback, new_fallback}
use oh_my_api.Scheduler.Tracker.{
  LatencyTracker, TtftSample, drop, ensure_window, CandidateStats, rank_candidates,
  find_correction_candidate, compute_score, sort_scores, insert_sorted, score_before, text_before,
  find_correction, promoted, move_first, is_longest,
}
use oh_my_api.Scheduler.Tracker.Windows.{record_all, samples_of, newest, record_all-window}
use oh_my_api.Scheduler.Tracker.Ranking.{IsRanked, rank_candidates-IsRanked}
use oh_my_api.Scheduler.Adaptive.{
  health_key, is_kept, remove_unhealthy_from_remaining, loop, Step, finished, again, round,
}
use oh_my_api.Scheduler.Adaptive.Remaining.{removed_before, loop-round}
use oh_my_api.Scheduler.Failover.{stop_sequential}
use oh_my_api.Scheduler.LoadBalance.{try_task, settle_outcome}
use oh_my_api.Scheduler.World.{World}
use oh_my_api.Scheduler.Leaf.{execute_task}
use oh_my_api.Base.{keep}
use oh_my_api.RateLimit.{identity}
use oh_my_api.Scheduler.LoadBalance.StickyLoop.{adaptive_candidate_key}
use oh_my_api.Examples.Scheduler.Upstreams.{env, world, broke, good}
use oh_my_api.Scheduler.Leaf.{
  allow_task, request_is_replayable, leaf_retry_budget, is_retryable_attempt, with_health,
  apply_attempt_health, execute_once, is_retryable_transport_error, report_failure_unless_abort,
  retry_after,
}
use oh_my_api.RateLimit.{allow, limiter_allow, model_limiter, new_limiter}
use oh_my_api.Scheduler.Classify.{
  parse_response, apply_provider_error_classification, apply_health_action, listed,
  mark_quota_failure, tencent_classified,
}
use oh_my_api.Base.{delete, lookup_or_zero}
use oh_my_api.Health.{
  clamp_base, doubled, mark_unhealthy_escalating, next_cooldown, report_failure, report_success,
  new_checker,
}
use oh_my_api.Scheduler.Abort.{abort_error, is_context_abort, should_stop_scheduling}
use oh_my_api.Scheduler.Adaptive.{record_adaptive_ttft}
use oh_my_api.Scheduler.Fallback.{
  discard_soft_result, record_hard_error, record_hard_result, record_soft_result,
}
use oh_my_api.Scheduler.Tracker.{record_selection, record_success, trim_samples}
use oh_my_api.Scheduler.Types.{response_protocol}

abbrev model_of : Task → Text → Task
model_of task name = record task { upstream_model = name }

abbrev marked : Checker
marked = mark_unhealthy_for 0 (health_key broke) 3600000000000 (new_checker 3 30000000000)

-- The provider is still healthy when its first model has failed. Its second model makes it unhealthy,
-- and the candidate behind it is passed over.
abbrev second : Task
second = model_of broke (txt "m2")

abbrev order : List Task
order = broke ∷ second ∷ good ∷ []

abbrev left_by : Step env → List Task × LatencyTracker × World env × Fallback
left_by (finished o tr w) = ([], tr, w, new_fallback)
left_by (again rest tr w f) = (rest, tr, w, f)

abbrev left : List Task × LatencyTracker × World env × Fallback
left = left_by (round env second order [] world new_fallback)

goes_on :
    (round env second order [] world new_fallback ≡ again left.0 left.1 left.2 left.3)
    × (drop 2 left.0 ≡ [])
unfolding round stop_sequential settle_outcome try_task allow_task allow lookup execute_task
    request_is_replayable leaf_retry_budget text_eq parse_response
    apply_provider_error_classification is_retryable_attempt remove_unhealthy_from_remaining
    is_healthy with_health apply_health_action delete insert lookup_or_zero trim_left trim_space
    clamp_base cooldown_of doubled make_health_key mark_unhealthy_escalating mark_unhealthy_for
    mark_with next_cooldown report_failure report_success identity limiter_allow model_limiter
    new_limiter abort_error is_context_abort should_stop_scheduling record_adaptive_ttft listed
    mark_quota_failure tencent_classified discard_soft_result record_hard_error record_hard_result
    record_soft_result apply_attempt_health execute_once is_retryable_transport_error
    report_failure_unless_abort retry_after adaptive_candidate_key ensure_window record_selection
    record_success trim_samples response_protocol new_checker
goes_on = (refl, refl)

loop-round_example :
    (loop env 3 1 order [] world new_fallback ≡ loop env 2 2 left.0 left.1 left.2 left.3)
    × (drop 2 left.0 ≡ (
        if is_healthy left.2.health (env.clock left.2.net) (health_key second)
        then good ∷ []
        else drop (removed_before (is_kept second) 1 order) (keep (is_kept second) (good ∷ []))))
loop-round_example =
    loop-round env 2 1 second order left.0 [] left.1 world left.2 new_fallback left.3 refl goes_on.0

abbrev sample : ℕ → TtftSample
sample n = record { ttft = n; timestamp = n }

record_all-window_example :
    (ensure_window (txt "a/m") (
      record_all
        ((txt "a/m", sample 1) ∷ (txt "b/m", sample 2) ∷ (txt "a/m", sample 3) ∷ [])
        [])).samples
    ≡ newest (
        samples_of
          (txt "a/m")
          ((txt "a/m", sample 1) ∷ (txt "b/m", sample 2) ∷ (txt "a/m", sample 3) ∷ []))
record_all-window_example =
    record_all-window (txt "a/m")
      ((txt "a/m", sample 1) ∷ (txt "b/m", sample 2) ∷ (txt "a/m", sample 3) ∷ [])

abbrev fast : CandidateStats
fast = record {
  key = txt "a/m";
  total = 100000000;
  sample_count = 1;
  last_success_at = some 1000;
  last_selected_at = some 1000;
}

abbrev unknown : CandidateStats
unknown = record {
  key = txt "b/m";
  total = 0;
  sample_count = 0;
  last_success_at = none;
  last_selected_at = none;
}

rank_candidates-IsRanked_example :
    IsRanked 2000 (fast ∷ unknown ∷ []) (rank_candidates (fast ∷ unknown ∷ []) 2000)
rank_candidates-IsRanked_example = rank_candidates-IsRanked (fast ∷ unknown ∷ []) 2000

-- The candidate that was never selected is promoted.
promoted_first :
    map (λ a. a.stats.key) (rank_candidates (fast ∷ unknown ∷ []) 2000) ≡ txt "b/m" ∷ txt "a/m" ∷ []
unfolding rank_candidates promoted find_correction_candidate find_correction is_longest sort_scores
    insert_sorted score_before text_before move_first text_eq compute_score
promoted_first = refl
