-- ===== src/Config/Rules.antt =====
-- internal/config/rules.go: the request rules of the configuration and their validation; with
-- ResolveProtocolAlias of normalize.go. An issue keeps its place and its kind, not its wording.
-- `table` is unicode.ToLower beyond ASCII.
pub mod Normalize
pub mod Sound
use oh_my_api.Base.{
  ℕ, suc, ◌+◌, Bool, true, false, not, ◌&&◌, ◌||◌, Option, none, some, List, [], ◌∷◌, ◌++◌, ltb,
  ◌==◌, is_some, if◌then◌else◌, length, any, all, Text, txt, text_eq, trim_space, ℤ, pos, ltb_ℤ,
  leb_ℤ,
}
use oh_my_api.Codec.Format.{normalize_provider_format}
use oh_my_api.Config.Effort.{effort_rank}
use oh_my_api.Config.TimeRange.{parse_time_range}

pub record RuleCondition : Type 0 where
  pub op : Text
  pub value : Text

pub record RuleMatch : Type 0 where
  pub client_model : Option RuleCondition
  pub key : Option RuleCondition
  pub upstream_model : Option RuleCondition

pub record RuleAction : Type 0 where
  pub protocol : Text
  pub effort : List Text
  pub effort_mode : Text
  pub temperature_mode : Text
  pub thinking : Text
  pub max_tokens : Option ℤ
  pub qpm : Option ℤ
  pub enable_time_range : List Text
  pub disable_time_range : List Text
  pub retries : Option ℤ

pub record RuleConfig : Type 0 where
  pub match : RuleMatch
  pub action : RuleAction

-- ResolveProtocolAlias
unfoldable pub resolve_protocol_alias : Text → Text
resolve_protocol_alias s =
    if text_eq s (txt "openai")
    then txt "openai.chat"
    else if text_eq s (txt "anthropic")
    then txt "anthropic.messages"
    else s

-- Where an issue lies, and of which kind it is.
pub data Issue : Type 0 where
  too_many_conditions invalid_op : Issue
  no_action effort_exclusive invalid_protocol invalid_effort invalid_effort_mode : Issue
  invalid_temperature_mode invalid_thinking invalid_max_tokens invalid_qpm : Issue
  qpm_without_upstream_model invalid_enable_range invalid_disable_range invalid_retries : Issue

-- `if` with one issue, as the checks append it.
abbrev pub issue_if : Bool → Issue → List Issue
issue_if true i = i ∷ []
issue_if false i = []

abbrev pub valid_rule_op : Text → Bool
valid_rule_op op =
    text_eq op (txt "equals") || text_eq op (txt "startWith") || text_eq op (txt "include")

-- validateRuleCondition
unfoldable pub validate_rule_condition : Option RuleCondition → List Issue
validate_rule_condition none = []
validate_rule_condition (some c) = issue_if (not (valid_rule_op c.op)) invalid_op

abbrev pub one_if : Bool → ℕ
one_if true = 1
one_if false = 0

unfoldable pub condition_count : RuleMatch → ℕ
condition_count m =
    one_if (is_some m.client_model) + one_if (is_some m.key) + one_if (is_some m.upstream_model)

-- validateRuleMatch
unfoldable pub validate_rule_match : RuleMatch → List Issue
unfolding validate_rule_condition condition_count
validate_rule_match m =
    issue_if (ltb 1 (condition_count m)) too_many_conditions
    ++ (validate_rule_condition m.client_model
        ++ (validate_rule_condition m.key ++ validate_rule_condition m.upstream_model))

abbrev pub is_set : Text → Bool
is_set t = not (text_eq t [])

abbrev pub has_items : List Text → Bool
has_items [] = false
has_items (x ∷ xs) = true

unfoldable pub class_count : RuleAction → ℕ
class_count a =
    one_if (is_set a.protocol)
    + one_if (has_items a.effort)
    + one_if (is_set a.effort_mode)
    + one_if (is_set a.temperature_mode)
    + one_if (is_set a.thinking)
    + one_if (is_some a.max_tokens)
    + one_if (is_some a.qpm)
    + one_if (has_items a.enable_time_range)
    + one_if (has_items a.disable_time_range)
    + one_if (is_some a.retries)

-- The loop of validateEffortAllowList: `none` for an unknown level, else whether "none" occurs.
unfoldable pub scan_effort : List Text → Option Bool
scan_effort [] = some false
scan_effort (e ∷ es) = elim (scan_effort es) [
  | none ↦ none
  | some has_none ↦
      if text_eq e (txt "none")
      then some true
      else if is_some (effort_rank e)
      then some has_none
      else none
]

-- validateEffortAllowList: whether it returns no error.
unfoldable pub effort_allow_list_ok : List Text → Bool
unfolding scan_effort
effort_allow_list_ok effort = elim (scan_effort effort) [
  | none ↦ false
  | some has_none ↦ not (has_none && not (length effort == 1))
]

abbrev pub below_one : Option ℤ → Bool
below_one none = false
below_one (some n) = leb_ℤ n (pos 0)

abbrev pub outside_retries : Option ℤ → Bool
outside_retries none = false
outside_retries (some n) = ltb_ℤ n (pos 0) || ltb_ℤ (pos 2) n

-- One issue for each entry that is no time range.
unfoldable pub range_issues : Issue → List Text → List Issue
range_issues i [] = []
range_issues i (raw ∷ raws) =
    issue_if (not (is_some (parse_time_range raw))) i ++ range_issues i raws

abbrev pub protocol_ok : (ℕ → ℕ) → Text → Bool
protocol_ok table p =
    is_some (normalize_provider_format table (resolve_protocol_alias (trim_space p)))

abbrev pub one_of_modes : Text → List Text → Bool
one_of_modes t allowed = any (λ a. text_eq t a) allowed

abbrev pub join : List (List Issue) → List Issue
join [] = []
join (xs ∷ xss) = xs ++ join xss

-- The checks of validateRuleAction, in order, each with what it appends.
abbrev pub action_checks : (ℕ → ℕ) → RuleMatch → RuleAction → List (List Issue)
action_checks table m a =
    issue_if (class_count a == 0) no_action
    ∷ issue_if (has_items a.effort && is_set a.effort_mode) effort_exclusive
    ∷ issue_if (is_set a.protocol && not (protocol_ok table a.protocol)) invalid_protocol
    ∷ issue_if (has_items a.effort && not (effort_allow_list_ok a.effort)) invalid_effort
    ∷ issue_if (is_set a.effort_mode && not (text_eq a.effort_mode (txt "strip")))
        invalid_effort_mode
    ∷ issue_if (is_set a.temperature_mode && not (text_eq a.temperature_mode (txt "strip")))
        invalid_temperature_mode
    ∷ issue_if (is_set a.thinking && not (one_of_modes a.thinking (txt "on" ∷ txt "off" ∷ [])))
        invalid_thinking
    ∷ issue_if (below_one a.max_tokens) invalid_max_tokens
    ∷ issue_if (below_one a.qpm) invalid_qpm
    ∷ issue_if (is_some a.qpm && not (is_some m.upstream_model)) qpm_without_upstream_model
    ∷ range_issues invalid_enable_range a.enable_time_range
    ∷ range_issues invalid_disable_range a.disable_time_range
    ∷ issue_if (outside_retries a.retries) invalid_retries
    ∷ []

-- validateRuleAction
unfoldable pub validate_rule_action : (ℕ → ℕ) → RuleMatch → RuleAction → List Issue
unfolding class_count effort_allow_list_ok range_issues
validate_rule_action table m a = join (action_checks table m a)

abbrev pub at_rule : ℕ → List Issue → List (ℕ × Issue)
at_rule i [] = []
at_rule i (x ∷ xs) = (i, x) ∷ at_rule i xs

unfoldable pub validate_rule : (ℕ → ℕ) → RuleConfig → List Issue
validate_rule table r = validate_rule_match r.match ++ validate_rule_action table r.match r.action

-- ValidateRules: the issues of all the rules, each with the index of its rule.
unfoldable pub validate_from : (ℕ → ℕ) → ℕ → List RuleConfig → List (ℕ × Issue)
validate_from table i [] = []
validate_from table i (r ∷ rs) = at_rule i (validate_rule table r) ++ validate_from table (i + 1) rs

unfoldable pub validate_rules : (ℕ → ℕ) → List RuleConfig → List (ℕ × Issue)
unfolding validate_from
validate_rules table rules = validate_from table 0 rules
