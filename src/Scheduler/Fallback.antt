-- ===== src/Scheduler/Fallback.antt =====
-- internal/scheduler/failover.go: sequentialFallback, what a sequential strategy returns when no
-- candidate succeeds. `closed` collects the results whose bodies were closed.
pub mod Priority
use oh_my_api.Base.{
  Bool, true, false, not, ◌&&◌, Option, none, some, List, [], ◌∷◌, ◌++◌, is_some, if◌then◌else◌,
}
use oh_my_api.Scheduler.Types.{
  Err, all_rate_limited, all_providers_failed, Result, Outcome, result, error,
}

pub record Fallback : Type 0 where
  pub last_hard_result : Option Result
  pub last_hard_err : Option Err
  pub last_hard_was_err : Bool
  pub last_soft_result : Option Result
  pub rate_limited_only : Bool
  pub closed : List Result

unfoldable pub new_fallback : Fallback
new_fallback = record {
  last_hard_result = none;
  last_hard_err = none;
  last_hard_was_err = false;
  last_soft_result = none;
  rate_limited_only = true;
  closed = [];
}

-- closeResultBody
abbrev pub close_body : Option Result → List Result → List Result
close_body none closed = closed
close_body (some r) closed = closed ++ (r ∷ [])

unfoldable pub discard_soft_result : Fallback → Fallback
discard_soft_result f = record f {
  closed = close_body f.last_soft_result f.closed;
  last_soft_result = none;
}

-- RecordRateLimit is empty.
abbrev pub record_rate_limit : Fallback → Fallback
record_rate_limit f = f

unfoldable pub record_hard_result : Result → Fallback → Fallback
unfolding discard_soft_result
record_hard_result r f = record (discard_soft_result f) {
  rate_limited_only = false;
  last_hard_result = some r;
  last_hard_err = none;
  last_hard_was_err = false;
}

unfoldable pub record_hard_error : Err → Fallback → Fallback
unfolding discard_soft_result
record_hard_error e f = record (discard_soft_result f) {
  rate_limited_only = false;
  last_hard_err = some e;
  last_hard_result = none;
  last_hard_was_err = true;
}

-- Two results of two attempts are two pointers, so the one held before is closed.
unfoldable pub record_soft_result : Result → Fallback → Fallback
record_soft_result r f = record f {
  rate_limited_only = false;
  closed = close_body f.last_soft_result f.closed;
  last_soft_result = some r;
}

abbrev or_soft : Option Result → Bool → Outcome
or_soft (some r) limited = result r
or_soft none true = error all_rate_limited
or_soft none false = error all_providers_failed

-- The hard failure that Final returns first.
abbrev hard_of : Bool → Option Err → Option Result → Option Outcome
hard_of true (some e) hard = some (error e)
hard_of false err (some r) = some (result r)
hard_of _ _ _ = none

-- Final: what is returned, and the fallback after it.
unfoldable pub final : Fallback → Outcome × Fallback
unfolding discard_soft_result
final f = elim (hard_of f.last_hard_was_err f.last_hard_err f.last_hard_result) [
  | some o ↦ (o, discard_soft_result f)
  | none ↦ (or_soft f.last_soft_result f.rate_limited_only, f)
]
