-- ===== src/Health.antt =====
-- internal/health: the health checker of the providers (checker.go) and its keys (key.go).
-- The mutex makes each method one step. `now` is the reading of the clock that the method takes;
-- times and durations are nanoseconds and not negative, and the clock is monotonic.
-- `gauge` is what the method hands to `metrics.SetProviderHealth`.
pub mod Keys
pub mod Circuit
pub mod Backoff
pub mod Invariant
use oh_my_api.Base.{
  ℕ, ◌+◌, ◌-◌, ◌*◌, Bool, true, false, ◌&&◌, Option, none, some, List, [], ◌∷◌, ◌++◌, map, ltb, leb,
  ◌==◌, if◌then◌else◌, Text, txt, trim_space, text_eq, Map, lookup, insert, delete, lookup_or_zero,
}

pub record Checker : Type 0 where
  pub failure_counts : Map ℕ
  pub unhealthy_at : Map ℕ
  pub cooldown_override : Map ℕ
  pub threshold : ℕ
  pub cooldown : ℕ
  pub gauge : Map Bool

unfoldable pub new_checker : ℕ → ℕ → Checker
new_checker threshold cooldown = record {
  failure_counts = [];
  unhealthy_at = [];
  cooldown_override = [];
  threshold = threshold;
  cooldown = cooldown;
  gauge = [];
}

-- The cooldown that counts for a provider: its own, or else the default.
unfoldable pub cooldown_of : Checker → Text → ℕ
cooldown_of c provider = elim (lookup provider c.cooldown_override) [
  | none ↦ c.cooldown
  | some d ↦ d
]

unfoldable pub is_healthy : Checker → ℕ → Text → Bool
unfolding cooldown_of
is_healthy c now provider = elim (lookup provider c.unhealthy_at) [
  | none ↦ true
  | some t ↦ ltb (cooldown_of c provider) (now - t)
]

unfoldable pub report_success : Text → Checker → Checker
report_success provider c = record c {
  failure_counts = insert provider 0 c.failure_counts;
  unhealthy_at = delete provider c.unhealthy_at;
  cooldown_override = delete provider c.cooldown_override;
  gauge = insert provider true c.gauge;
}

unfoldable pub report_failure : ℕ → Text → Checker → Checker
report_failure now provider c =
    let count = lookup_or_zero provider c.failure_counts + 1 in
    let counted = record c { failure_counts = insert provider count c.failure_counts } in
    if leb c.threshold count
    then record counted {
      cooldown_override = delete provider c.cooldown_override;
      unhealthy_at = insert provider now c.unhealthy_at;
      gauge = insert provider false c.gauge;
    }
    else counted

-- The last four statements of each marking method.
unfoldable pub mark_with : ℕ → Text → ℕ → Checker → Checker
mark_with now provider d c = record c {
  failure_counts = insert provider 0 c.failure_counts;
  unhealthy_at = insert provider now c.unhealthy_at;
  cooldown_override = insert provider d c.cooldown_override;
  gauge = insert provider false c.gauge;
}

unfoldable pub mark_unhealthy_for : ℕ → Text → ℕ → Checker → Checker
unfolding mark_with
mark_unhealthy_for now provider cooldown c = mark_with now provider cooldown c

-- The first two statements of MarkUnhealthyEscalating. A cap of 0 is no cap.
unfoldable pub clamp_base : ℕ → ℕ → ℕ → ℕ
clamp_base default base cap =
    let b = if leb base 0 then default else base in if ltb 0 cap && ltb cap b then cap else b

unfoldable pub doubled : ℕ → ℕ → ℕ
doubled prev cap = if ltb 0 cap && ltb cap (prev * 2) then cap else prev * 2

-- Outside a cooldown: the first mark, or one after the last cooldown has run out.
unfoldable pub next_cooldown : Option ℕ → ℕ → ℕ → ℕ
unfolding doubled
next_cooldown none base cap = base
next_cooldown (some prev) base cap = if ltb 0 prev then doubled prev cap else base

unfoldable pub mark_unhealthy_escalating : ℕ → Text → ℕ → ℕ → Checker → Checker
unfolding mark_with clamp_base next_cooldown cooldown_of
mark_unhealthy_escalating now provider base_cooldown max_cooldown c =
    let base = clamp_base c.cooldown base_cooldown max_cooldown in
    let override = lookup provider c.cooldown_override in
    let outside = mark_with now provider (next_cooldown override base max_cooldown) c in
    elim (lookup provider c.unhealthy_at) [
      | none ↦ outside
      | some t ↦
          if leb (now - t) (cooldown_of c provider)
          then elim override [ some _ ↦ c | none ↦ mark_with now provider base c ]
          else outside
    ]

-- GetStatus, in the order of the map.
unfoldable pub get_status : Checker → ℕ → List (Text × Bool)
unfolding is_healthy
get_status c now = map (λ (e : Text × ℕ). (e.0, is_healthy c now e.0)) c.failure_counts

-- MakeHealthKey
unfoldable pub make_health_key : Text → Text → Text
make_health_key provider outbound_protocol =
    let p = trim_space provider in
    let o = trim_space outbound_protocol in if text_eq o [] then p else p ++ (b'|' ∷ o)

-- The state-changing methods, as data: a history of the checker is a list of them.
pub data Report : Type 0 where
  success : Text → Report
  failure : ℕ → Text → Report
  marked_for : ℕ → Text → ℕ → Report
  marked_escalating : ℕ → Text → ℕ → ℕ → Report

unfoldable pub apply : Report → Checker → Checker
unfolding report_success report_failure mark_unhealthy_for mark_unhealthy_escalating
apply (success p) c = report_success p c
apply (failure now p) c = report_failure now p c
apply (marked_for now p d) c = mark_unhealthy_for now p d c
apply (marked_escalating now p base cap) c = mark_unhealthy_escalating now p base cap c

unfoldable pub apply_all : List Report → Checker → Checker
apply_all [] c = c
apply_all (r ∷ rs) c = apply_all rs (apply r c)
