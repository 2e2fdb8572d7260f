-- ===== src/Cascade/Hub.antt =====
-- internal/cascade/hub.go and health.go: the active session of the hub, and what the health checker
-- is told of it. replaceSession and clearSession hold the hub's mutex from their start to their end, so
-- each is one step. SetHealthChecker and Close let go of it before they report, so they are two halves
-- each, between which other operations may come; and the checker locks for each key. A session is
-- known by a number, which stands for its pointer.
pub mod Marks
pub mod Health
use oh_my_api.Base.{
  ℕ, Bool, false, not, ◌&&◌, text_eq, trim_space, Option, none, some, List, [], ◌∷◌, ◌==◌,
  if◌then◌else◌, Text, txt,
}
use oh_my_api.Health.{Checker, report_success, mark_unhealthy_for, make_health_key}

-- The state of Hub: the provider and the token of its configuration, the session, and whether it has
-- been given a checker. `health` is the state of this checker, and `closed` are the sessions that
-- closeWithReason was called on.
pub record Hub : Type 0 where
  pub provider : Text
  pub token : Text
  pub session : Option ℕ
  pub attached : Bool
  pub health : Checker
  pub closed : List ℕ

-- NewHub; the checker is not known to it yet.
abbrev pub new_hub : (provider token : Text) → Checker → Hub
new_hub provider token c = record {
  provider = provider;
  token = token;
  session = none;
  attached = false;
  health = c;
  closed = [];
}

-- Configured
abbrev pub is_configured : Hub → Bool
is_configured h = not (text_eq (trim_space h.provider) []) && not (text_eq (trim_space h.token) [])

-- CascadeOutboundProtocols
abbrev pub cascade_outbound_protocols : List Text
cascade_outbound_protocols =
    txt "openai.chat" ∷ txt "openai.responses" ∷ txt "anthropic.messages" ∷ []

-- pinnedUnhealthyCooldown, 365 days
abbrev pub pinned_unhealthy_cooldown : ℕ
pinned_unhealthy_cooldown = 31536000000000000

unfoldable pub report_healthy_for : List Text → Text → Checker → Checker
report_healthy_for [] provider c = c
report_healthy_for (proto ∷ protos) provider c =
    report_healthy_for protos provider (report_success (make_health_key provider proto) c)

-- ReportSessionHealthy
abbrev pub report_session_healthy : Text → Checker → Checker
report_session_healthy provider c = report_healthy_for cascade_outbound_protocols provider c

unfoldable pub report_unhealthy_for : ℕ → List Text → Text → Checker → Checker
report_unhealthy_for now [] provider c = c
report_unhealthy_for now (proto ∷ protos) provider c =
    report_unhealthy_for now protos provider
      (mark_unhealthy_for now (make_health_key provider proto) pinned_unhealthy_cooldown c)

-- ReportSessionUnhealthy
abbrev pub report_session_unhealthy : ℕ → Text → Checker → Checker
report_session_unhealthy now provider c =
    report_unhealthy_for now cascade_outbound_protocols provider c

abbrev pub close_session : Option ℕ → List ℕ → List ℕ
close_session none closed = closed
close_session (some s) closed = s ∷ closed

-- SetHealthChecker while it holds the mutex, for a checker or, if the flag is false, for nil.
abbrev pub attach_checker : (given : Bool) → Hub → Hub
attach_checker given h = record h { attached = given }

-- What it reports then, from what it read under the mutex.
abbrev pub report_attached : ℕ → (given configured : Bool) → Option ℕ → Hub → Hub
report_attached now given configured session h =
    if given && configured
    then record h {
      health = elim session [
        | none ↦ report_session_unhealthy now h.provider h.health
        | some s ↦ report_session_healthy h.provider h.health
      ];
    }
    else h

-- SetHealthChecker, when nothing comes between.
unfoldable pub set_health_checker : ℕ → (given : Bool) → Hub → Hub
set_health_checker now given h =
    report_attached now given (is_configured h) h.session (attach_checker given h)

-- replaceSession
unfoldable pub replace_session : ℕ → Hub → Hub
replace_session next h = record h {
  closed = close_session h.session h.closed;
  session = some next;
  health = if h.attached then report_session_healthy h.provider h.health else h.health;
}

abbrev pub is_session : ℕ → Option ℕ → Bool
is_session s none = false
is_session s (some s') = s' == s

-- clearSession
unfoldable pub clear_session : ℕ → ℕ → Hub → Hub
clear_session now s h =
    if is_session s h.session
    then record h {
      session = none;
      health = if h.attached then report_session_unhealthy now h.provider h.health else h.health;
    }
    else h

-- Close while it holds the mutex.
unfoldable pub take_session : Hub → Hub
take_session h = record h { session = none }

-- What it does then with the session that it has taken.
abbrev pub close_taken : Option ℕ → Hub → Hub
close_taken session h = record h { closed = close_session session h.closed }

-- One of the keys that it reports: a step of its own.
unfoldable pub pin_key : ℕ → Text → Hub → Hub
pin_key now proto h = record h {
  health =
      mark_unhealthy_for now (make_health_key h.provider proto) pinned_unhealthy_cooldown h.health;
}

-- Close, when nothing comes between.
unfoldable pub close : ℕ → Hub → Hub
close now h =
    let h' = close_taken h.session (take_session h) in
    if h.attached && not (text_eq h.provider [])
    then record h' { health = report_session_unhealthy now h'.provider h'.health }
    else h'
