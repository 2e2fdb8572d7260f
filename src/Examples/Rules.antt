-- ===== src/Examples/Rules.antt =====
-- The rules (internal/rules, internal/config/rules.go) at work.
use oh_my_api.Base.{ℕ, ◌≡◌, refl, none, some, List, [], ◌∷◌, Text, txt, pos, trim_space, text_eq}
use oh_my_api.Config.Rules.{
  RuleMatch, RuleConfig, validate_rules, validate_from, validate_rule, validate_rule_match,
  validate_rule_condition, condition_count, class_count, validate_rule_action, range_issues,
  effort_allow_list_ok, scan_effort,
}
use oh_my_api.Rules.{MatchContext, empty_action, evaluate}
use oh_my_api.Rules.Merge.{IsMerged, hits, evaluate-IsMerged}

abbrev same : ℕ → ℕ
same c = c

abbrev about : Text → RuleMatch
about model = record {
  client_model = some (record { op = txt "startWith"; value = model });
  key = none;
  upstream_model = none;
}

abbrev rules : List RuleConfig
rules =
    record { match = about (txt "gpt"); action = record empty_action { retries = some (pos 2) } }
    ∷ record {
      match = about (txt "gpt-4");
      action = record empty_action { effort_mode = txt "strip" };
    }
    ∷ []

abbrev context : MatchContext
context = record { client_model = txt "gpt-4o"; key_name = txt "k"; upstream_model = txt "u" }

rules_valid : validate_rules same rules ≡ []
unfolding validate_rules validate_from validate_rule validate_rule_match validate_rule_condition
    condition_count class_count validate_rule_action range_issues effort_allow_list_ok scan_effort
    empty_action text_eq trim_space
rules_valid = refl

evaluate-IsMerged_example : IsMerged (hits rules context) (evaluate rules context)
evaluate-IsMerged_example = evaluate-IsMerged rules context
