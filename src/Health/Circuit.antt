-- ===== src/Health/Circuit.antt =====
-- Breaking the circuit: consecutive failures, the threshold, and passive recovery.
use oh_my_api.Base.{
  ℕ, ◌+◌, ◌-◌, ◌≤◌, ◌<◌, ◌≡◌, refl, true, none, some, List, [], ◌∷◌, arith, Text, lookup,
  lookup-insert_self, lookup-delete_self, lookup_or_zero, ltb, length, ◌∙◌,
}
use oh_my_api.Health.{Checker, is_healthy, report_success, report_failure, cooldown_of}

-- One failure at each of the given times, the first one first.
unfoldable pub fail_at : List ℕ → Text → Checker → Checker
fail_at [] p c = c
fail_at (t ∷ ts) p c = fail_at ts p (report_failure t p c)

abbrev count_of : Text → Checker → ℕ
count_of p c = lookup_or_zero p c.failure_counts

report_failure-count :
    (t : ℕ) (p : Text) (c : Checker) → count_of p (report_failure t p c) ≡ count_of p c + 1
unfolding report_failure lookup_or_zero
report_failure-count t p c =
    ground (arith, lookup-insert_self p (count_of p c + 1) c.failure_counts)

report_failure-threshold :
    (t : ℕ) (p : Text) (c : Checker) → (report_failure t p c).threshold ≡ c.threshold
unfolding report_failure
report_failure-threshold t p c = ground arith

report_failure-cooldown :
    (t : ℕ) (p : Text) (c : Checker) → (report_failure t p c).cooldown ≡ c.cooldown
unfolding report_failure
report_failure-cooldown t p c = ground arith

-- Below the threshold a failure leaves the marks alone.
report_failure_below :
    (t : ℕ) (p : Text) (c : Checker)
    → count_of p c + 1 < c.threshold
    → (report_failure t p c).unhealthy_at ≡ c.unhealthy_at
unfolding report_failure
report_failure_below t p c h = ground arith

report_failure_over :
    (t : ℕ) (p : Text) (c : Checker)
    → c.threshold ≤ count_of p c + 1
    → (lookup p (report_failure t p c).unhealthy_at ≡ some t)
      × (lookup p (report_failure t p c).cooldown_override ≡ none)
unfolding report_failure
report_failure_over t p c h =
    ground (arith, lookup-insert_self p t c.unhealthy_at, lookup-delete_self p c.cooldown_override)

report_success-count : (p : Text) (c : Checker) → count_of p (report_success p c) ≡ 0
unfolding report_success lookup_or_zero
report_success-count p c = ground (arith, lookup-insert_self p 0 c.failure_counts)

report_success-threshold : (p : Text) (c : Checker) → (report_success p c).threshold ≡ c.threshold
unfolding report_success
report_success-threshold p c = refl

report_success-cooldown : (p : Text) (c : Checker) → (report_success p c).cooldown ≡ c.cooldown
unfolding report_success
report_success-cooldown p c = refl

unmarked : (p : Text) (c : Checker) → lookup p (report_success p c).unhealthy_at ≡ none
unfolding report_success
unmarked p c = lookup-delete_self p c.unhealthy_at

fail_at-unmarked :
    (ts : List ℕ) (p : Text) (c : Checker)
    → lookup p c.unhealthy_at ≡ none
    → count_of p c + length ts < c.threshold
    → lookup p (fail_at ts p c).unhealthy_at ≡ none
unfolding fail_at
fail_at-unmarked [] p c n h = n
fail_at-unmarked (t ∷ ts) p c n h =
    fail_at-unmarked ts p (report_failure t p c) (ground (arith, report_failure_below t p c))
      (omega (arith, report_failure-count t p c, report_failure-threshold t p c))

-- Fewer failures than the threshold since the last success leave the provider healthy at any time.
pub fail_at-is_healthy :
    (ts : List ℕ) (p : Text) (c : Checker) (now : ℕ)
    → length ts < c.threshold
    → is_healthy (fail_at ts p (report_success p c)) now p ≡ true
unfolding is_healthy
fail_at-is_healthy ts p c now h =
    let e =
      fail_at-unmarked ts p (report_success p c) (unmarked p c)
        (omega (arith, report_success-count p c, report_success-threshold p c)) in
    rw (e, is_healthy)

fail_at-cooldown :
    (ts : List ℕ) (p : Text) (c : Checker)
    → ((fail_at ts p c).cooldown ≡ c.cooldown)
      × ((fail_at ts p c).threshold ≡ c.threshold)
      × (count_of p (fail_at ts p c) ≡ count_of p c + length ts)
unfolding fail_at
fail_at-cooldown [] p c = (refl, refl, omega arith)
fail_at-cooldown (t ∷ ts) p c =
    let (a, b, d) = fail_at-cooldown ts p (report_failure t p c) in
    (
      a ∙ report_failure-cooldown t p c,
      b ∙ report_failure-threshold t p c,
      omega (arith, d, report_failure-count t p c),
    )

-- A failure that brings the count since the last success to the threshold or beyond breaks the
-- circuit: the provider is unhealthy up to the end of the default cooldown, counted from that
-- failure, and healthy again after it.
pub fail_at-trips :
    (ts : List ℕ) (t : ℕ) (p : Text) (c : Checker) (now : ℕ)
    → c.threshold ≤ length ts + 1
    → is_healthy (report_failure t p (fail_at ts p (report_success p c))) now p
      ≡ ltb c.cooldown (now - t)
unfolding is_healthy cooldown_of
fail_at-trips ts t p c now h =
    let d = fail_at ts p (report_success p c) in
    let (cool, thr, cnt) = fail_at-cooldown ts p (report_success p c) in
    let (marked, free) =
      report_failure_over t p d
        (omega (arith, cnt, thr, report_success-count p c, report_success-threshold p c)) in
    ground (arith, report_failure-cooldown t p d, report_success-cooldown p c)
