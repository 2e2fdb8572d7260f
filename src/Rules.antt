-- ===== src/Rules.antt =====
-- internal/rules: which rules a request meets (match.go, context.go), and the merge of their
-- actions (merge.go).
pub mod Merge
use oh_my_api.Base.{
  ℕ, Bool, true, false, not, ◌&&◌, Option, none, some, List, [], ◌∷◌, if◌then◌else◌, Text, txt,
  text_eq, trim_space, has_prefix, contains, ℤ,
}
use oh_my_api.Config.Rules.{RuleCondition, RuleMatch, RuleAction, RuleConfig, is_set, has_items}

pub record MatchContext : Type 0 where
  pub client_model : Text
  pub key_name : Text
  pub upstream_model : Text

-- matchCondition
unfoldable pub match_condition : RuleCondition → Text → Bool
unfolding trim_space has_prefix contains
match_condition cond actual =
    let expected = trim_space cond.value in
    let trimmed = trim_space actual in
    if text_eq expected []
    then false
    else if text_eq cond.op (txt "equals")
    then text_eq trimmed expected
    else if text_eq cond.op (txt "startWith")
    then has_prefix trimmed expected
    else if text_eq cond.op (txt "include")
    then contains trimmed expected
    else false

-- A condition that is not given holds.
abbrev pub field_matches : Option RuleCondition → Text → Bool
field_matches none actual = true
field_matches (some cond) actual = match_condition cond actual

unfoldable pub match_rule : RuleMatch → MatchContext → Bool
unfolding match_condition
match_rule m ctx =
    if not (field_matches m.client_model ctx.client_model)
    then false
    else if not (field_matches m.key ctx.key_name)
    then false
    else field_matches m.upstream_model ctx.upstream_model

-- The zero value of MergedAction.
unfoldable pub empty_action : RuleAction
empty_action = record {
  protocol = [];
  effort = [];
  effort_mode = [];
  temperature_mode = [];
  thinking = [];
  max_tokens = none;
  qpm = none;
  enable_time_range = [];
  disable_time_range = [];
  retries = none;
}

abbrev pub over_text : Text → Text → Text
over_text new old = if is_set new then new else old

abbrev pub over_list : List Text → List Text → List Text
over_list new old = if has_items new then new else old

abbrev pub over_option : Option ℤ → Option ℤ → Option ℤ
over_option none old = old
over_option (some n) old = some n

-- The statements on effort and effort_mode of mergeAction, in order.
abbrev pub merged_effort : RuleAction → RuleAction → List Text
merged_effort merged action =
    if is_set action.effort_mode then [] else over_list action.effort merged.effort

abbrev pub merged_effort_mode : RuleAction → RuleAction → Text
merged_effort_mode merged action =
    if is_set action.effort_mode
    then action.effort_mode
    else if has_items action.effort
    then []
    else merged.effort_mode

unfoldable pub merge_action : RuleAction → RuleAction → RuleAction
merge_action merged action = record {
  protocol = over_text action.protocol merged.protocol;
  effort = merged_effort merged action;
  effort_mode = merged_effort_mode merged action;
  temperature_mode = over_text action.temperature_mode merged.temperature_mode;
  thinking = over_text action.thinking merged.thinking;
  max_tokens = over_option action.max_tokens merged.max_tokens;
  qpm = over_option action.qpm merged.qpm;
  enable_time_range = over_list action.enable_time_range merged.enable_time_range;
  disable_time_range = over_list action.disable_time_range merged.disable_time_range;
  retries = over_option action.retries merged.retries;
}

-- The loop of Evaluate.
unfoldable pub evaluate_from : RuleAction → List RuleConfig → MatchContext → RuleAction
evaluate_from merged [] ctx = merged
evaluate_from merged (r ∷ rules) ctx =
    evaluate_from (if match_rule r.match ctx then merge_action merged r.action else merged) rules
      ctx

unfoldable pub evaluate : List RuleConfig → MatchContext → RuleAction
unfolding evaluate_from empty_action
evaluate rules ctx = evaluate_from empty_action rules ctx
