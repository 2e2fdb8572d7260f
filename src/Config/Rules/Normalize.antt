-- ===== src/Config/Rules/Normalize.antt =====
-- internal/config/rules.go and normalize.go: the rules of a configuration in their standard
-- spelling. Go writes it in place; here it is returned with the flag. `table` is unicode.ToLower
-- beyond ASCII.
pub mod Changed
pub mod Distinct
use oh_my_api.Base.{
  ℕ, Bool, true, false, not, ◌||◌, Option, none, some, List, [], ◌∷◌, if◌then◌else◌, any, Text,
  text_eq, trim_space, to_lower,
}
use oh_my_api.Config.Rules.{RuleAction, RuleConfig, is_set, resolve_protocol_alias}

-- A value in its new spelling, and whether anything has changed.
pub record Normalized {ℓ} (A : Type ℓ) : Type ℓ where
  pub value : A
  pub changed : Bool

abbrev pub lower_trimmed : (ℕ → ℕ) → Text → Text
lower_trimmed table s = to_lower table (trim_space s)

-- One element of the loop of normalizeReasoningEffortSlice: `none` if it is removed.
unfoldable pub kept_effort : (ℕ → ℕ) → List Text → Text → Option Text
kept_effort table seen s =
    if text_eq (trim_space s) []
    then none
    else if any (λ t. text_eq t (lower_trimmed table s)) seen
    then none
    else some (lower_trimmed table s)

abbrev pub remove_level : Normalized (List Text) → Normalized (List Text)
remove_level rest = record { value = rest.value; changed = true }

abbrev pub keep_level : Text → Text → Normalized (List Text) → Normalized (List Text)
keep_level lower s rest = record {
  value = lower ∷ rest.value;
  changed = not (text_eq lower s) || rest.changed;
}

unfoldable pub normalize_effort_from : (ℕ → ℕ) → List Text → List Text → Normalized (List Text)
normalize_effort_from table seen [] = record { value = []; changed = false }
normalize_effort_from table seen (s ∷ ss) = elim (kept_effort table seen s) [
  | none ↦ remove_level (normalize_effort_from table seen ss)
  | some lower ↦ keep_level lower s (normalize_effort_from table (lower ∷ seen) ss)
]

-- normalizeReasoningEffortSlice
abbrev pub normalize_reasoning_effort_slice : (ℕ → ℕ) → List Text → Normalized (List Text)
normalize_reasoning_effort_slice table slice = normalize_effort_from table [] slice

unfoldable pub normalize_protocol : Text → Text
normalize_protocol p = if is_set p then resolve_protocol_alias p else p

abbrev pub respelled : Text → Text → Bool
respelled new old = not (text_eq new old)

-- normalizeRuleAction
unfoldable pub normalize_rule_action : (ℕ → ℕ) → RuleAction → Normalized RuleAction
normalize_rule_action table a =
    let effort = normalize_reasoning_effort_slice table a.effort in
    record {
      value = record {
        protocol = normalize_protocol a.protocol;
        effort = effort.value;
        effort_mode = lower_trimmed table a.effort_mode;
        temperature_mode = lower_trimmed table a.temperature_mode;
        thinking = lower_trimmed table a.thinking;
        max_tokens = a.max_tokens;
        qpm = a.qpm;
        enable_time_range = a.enable_time_range;
        disable_time_range = a.disable_time_range;
        retries = a.retries;
      };
      changed =
          respelled (normalize_protocol a.protocol) a.protocol
          || (effort.changed
              || (respelled (lower_trimmed table a.effort_mode) a.effort_mode
                  || (respelled (lower_trimmed table a.temperature_mode) a.temperature_mode
                      || respelled (lower_trimmed table a.thinking) a.thinking)));
    }

-- The body of the loop of NormalizeRulesInConfig
unfoldable pub normalize_rule : (ℕ → ℕ) → RuleConfig → Normalized RuleConfig
normalize_rule table r =
    let action = normalize_rule_action table r.action in
    record { value = record { match = r.match; action = action.value }; changed = action.changed }

-- NormalizeRulesInConfig
unfoldable pub normalize_rules_in_config : (ℕ → ℕ) → List RuleConfig → Normalized (List RuleConfig)
normalize_rules_in_config table [] = record { value = []; changed = false }
normalize_rules_in_config table (r ∷ rs) =
    let rest = normalize_rules_in_config table rs in
    let rule = normalize_rule table r in
    record { value = rule.value ∷ rest.value; changed = rule.changed || rest.changed }
