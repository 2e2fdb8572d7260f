-- ===== src/Examples/Health.antt =====
-- The health checker (internal/health) at work.
use oh_my_api.Base.{◌-◌, ◌≡◌, List, [], ◌∷◌, arith, Text, txt, ltb}
use oh_my_api.Health.{
  Checker, Report, success, failure, marked_for, marked_escalating, new_checker, is_healthy,
  report_success, report_failure,
}
use oh_my_api.Health.Circuit.{fail_at, fail_at-trips}
use oh_my_api.Health.Backoff.{Marked, mark_at, level, last_of, report_success-mark_at}

abbrev p : Text
p = txt "openai|openai.chat"

abbrev q : Text
q = txt "claude"

abbrev fresh : Checker
fresh = new_checker 3 30

abbrev history : List Report
history = failure 1 p ∷ marked_escalating 2 p 10 40 ∷ success q ∷ marked_for 9 q 5 ∷ []

fail_at-trips_example :
    is_healthy (report_failure 5 p (fail_at (1 ∷ 2 ∷ []) p (report_success p fresh))) 20 p
    ≡ ltb fresh.cooldown (20 - 5)
fail_at-trips_example = fail_at-trips (1 ∷ 2 ∷ []) 5 p fresh 20 (unfold new_checker in omega arith)

report_success-mark_at_example :
    Marked
      (mark_at (1 ∷ 12 ∷ 33 ∷ []) p 10 40 (report_success p fresh))
      p
      (last_of 1 (12 ∷ 33 ∷ []))
      (level 10 40 2)
report_success-mark_at_example =
    report_success-mark_at 1 (12 ∷ 33 ∷ []) p 10 40 fresh (omega arith) (omega arith)
      (omega arith, (omega arith, tt))
