-- ===== src/Config/Rules/Sound.antt =====
-- What a rule without issues guarantees.
use oh_my_api.Base.{
  ℕ, ◌+◌, ◌≡◌, refl, Bool, true, false, not, ◌&&◌, Option, none, some, List, [], ◌∷◌, ◌++◌, arith,
  All, is_some, Text, ℤ, pos, ◌≤ℤ◌,
}
use oh_my_api.Config.TimeRange.{parse_time_range}
use oh_my_api.Config.Rules.{
  RuleMatch, RuleAction, RuleConfig, Issue, issue_if, validate_rule_match, validate_rule_action,
  validate_rule, validate_rules, validate_from, at_rule, join, action_checks, below_one,
  outside_retries, range_issues, is_set, protocol_ok,
}

-- An optional number that is positive where it is given, and one within the retry limits.
abbrev pub IsPositive : Option ℤ → Type 0
IsPositive none = Unit {0}
IsPositive (some n) = pos 1 ≤ℤ n

abbrev pub IsRetryCount : Option ℤ → Type 0
IsRetryCount none = Unit {0}
IsRetryCount (some n) = (pos 0 ≤ℤ n) × (n ≤ℤ pos 2)

abbrev pub AllRanges : List Text → Type 0
AllRanges = All (λ raw. is_some (parse_time_range raw) ≡ true)

-- What the scheduler and the rewriting of requests rely on in an action.
pub record IsSane (table : ℕ → ℕ) (a : RuleAction) : Type 0 where
  pub max_tokens : IsPositive a.max_tokens
  pub qpm : IsPositive a.qpm
  pub retries : IsRetryCount a.retries
  pub enabled : AllRanges a.enable_time_range
  pub disabled : AllRanges a.disable_time_range
  pub protocol : is_set a.protocol ≡ true → protocol_ok table a.protocol ≡ true

append-eq-nil {ℓ} : {A : Type ℓ} (xs ys : List A) → xs ++ ys ≡ [] → (xs ≡ []) × (ys ≡ [])
append-eq-nil [] ys h = (refl, h)
append-eq-nil (x ∷ xs) ys h = cc

issue_if-nil : (b : Bool) (i : Issue) → issue_if b i ≡ [] → b ≡ false
issue_if-nil true i h = cc
issue_if-nil false i h = refl

below_one-IsPositive : (o : Option ℤ) → below_one o ≡ false → IsPositive o
below_one-IsPositive none h = tt
below_one-IsPositive (some n) h = ground arith

outside_retries-IsRetryCount : (o : Option ℤ) → outside_retries o ≡ false → IsRetryCount o
outside_retries-IsRetryCount none h = tt
outside_retries-IsRetryCount (some n) h = ground arith

range_issues-AllRanges : (i : Issue) (raws : List Text) → range_issues i raws ≡ [] → AllRanges raws
unfolding range_issues
range_issues-AllRanges i [] h = tt
range_issues-AllRanges i (raw ∷ raws) h =
    let (a, b) =
      append-eq-nil (issue_if (not (is_some (parse_time_range raw))) i) (range_issues i raws) h in
    (
      ground (arith, issue_if-nil (not (is_some (parse_time_range raw))) i a),
      range_issues-AllRanges i raws b,
    )

at_rule-nil : (i : ℕ) (xs : List Issue) → at_rule i xs ≡ [] → xs ≡ []
at_rule-nil i [] h = refl
at_rule-nil i (x ∷ xs) h = cc

join-nil : (xss : List (List Issue)) → join xss ≡ [] → All (λ xs. xs ≡ []) xss
join-nil [] h = tt
join-nil (xs ∷ xss) h = let (a, b) = append-eq-nil xs (join xss) h in (a, join-nil xss b)

protocol_known : (set ok : Bool) → (set && not ok) ≡ false → set ≡ true → ok ≡ true
protocol_known set ok h e = ground arith

validate_rule_action-IsSane :
    (table : ℕ → ℕ) (m : RuleMatch) (a : RuleAction)
    → validate_rule_action table m a ≡ []
    → IsSane table a
unfolding validate_rule_action
validate_rule_action-IsSane table m a h =
    let (_, (_, (p, (_, (_, (_, (_, (t, (q, (u, (e, (d, (r, _))))))))))))) =
      join-nil (action_checks table m a) h in
    record {
      max_tokens = below_one-IsPositive a.max_tokens (issue_if-nil _ _ t);
      qpm = below_one-IsPositive a.qpm (issue_if-nil _ _ q);
      retries = outside_retries-IsRetryCount a.retries (issue_if-nil _ _ r);
      enabled = range_issues-AllRanges _ _ e;
      disabled = range_issues-AllRanges _ _ d;
      protocol =
          protocol_known (is_set a.protocol) (protocol_ok table a.protocol) (issue_if-nil _ _ p);
    }

validate_from-All :
    (table : ℕ → ℕ) (i : ℕ) (rules : List RuleConfig)
    → validate_from table i rules ≡ []
    → All (λ r. IsSane table r.action) rules
unfolding validate_from validate_rule
validate_from-All table i [] h = tt
validate_from-All table i (r ∷ rules) h =
    let (a, b) =
      append-eq-nil (at_rule i (validate_rule table r)) (validate_from table (i + 1) rules) h in
    let (_, c) =
      append-eq-nil (validate_rule_match r.match) (validate_rule_action table r.match r.action)
        (at_rule-nil i _ a) in
    (validate_rule_action-IsSane table r.match r.action c, validate_from-All table (i + 1) rules b)

-- Every action of rules without an issue has, as far as they are set, a positive max_tokens and
-- rate, at most two retries, a known protocol, and time ranges that all parse.
pub validate_rules-IsSane :
    (table : ℕ → ℕ) (rules : List RuleConfig)
    → validate_rules table rules ≡ []
    → All (λ r. IsSane table r.action) rules
unfolding validate_rules
validate_rules-IsSane table rules h = validate_from-All table 0 rules h
