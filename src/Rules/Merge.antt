-- ===== src/Rules/Merge.antt =====
-- The merged action: the last matching rule that sets a class wins.
use oh_my_api.Base.{
  All, ℕ, ◌≢◌, ◌⊎◌, sym, subst, Bool, Option-cases, ◌≡◌, refl, inl, inr, true, false, ◌&&◌, Option,
  none, some, List, [], ◌∷◌, if◌then◌else◌, Bool-cases, Text, text_eq, ℤ,
}
use oh_my_api.Config.Rules.Sound.{
  IsSane, IsPositive, IsRetryCount, AllRanges, validate_rules-IsSane,
}
use oh_my_api.Config.Rules.{validate_rules, protocol_ok, RuleAction, RuleConfig, is_set, has_items}
use oh_my_api.Rules.{
  MatchContext, match_rule, empty_action, merge_action, evaluate_from, evaluate, over_text,
  over_list, over_option, merged_effort, merged_effort_mode,
}

-- The rules that the request meets, the last one first.
abbrev hits_from : List RuleAction → List RuleConfig → MatchContext → List RuleAction
hits_from acc [] ctx = acc
hits_from acc (r ∷ rules) ctx =
    hits_from (if match_rule r.match ctx then r.action ∷ acc else acc) rules ctx

abbrev pub hits : List RuleConfig → MatchContext → List RuleAction
hits = hits_from []

-- A value is that of the first of a list of actions for which it is set, and unset if it is for none.
abbrev pub IsFirst : {A : Type 0} → (RuleAction → A) → A → A → List RuleAction → Type 0
IsFirst f unset v [] = v ≡ unset
IsFirst f unset v (a ∷ as') = ((f a ≢ unset) × (v ≡ f a)) ⊎ ((f a ≡ unset) × IsFirst f unset v as')

-- The effort levels and the effort mode are those of the first action that sets one of them, and
-- the mode alone if it sets both.
abbrev pub IsFirstEffort : List Text → Text → List RuleAction → Type 0
IsFirstEffort levels mode [] = (levels ≡ []) × (mode ≡ [])
IsFirstEffort levels mode (a ∷ as') =
    ((a.effort_mode ≢ []) × (levels ≡ []) × (mode ≡ a.effort_mode))
    ⊎ ((a.effort_mode ≡ []) × (a.effort ≢ []) × (levels ≡ a.effort) × (mode ≡ []))
    ⊎ ((a.effort_mode ≡ []) × (a.effort ≡ []) × IsFirstEffort levels mode as')

-- The action that a list of actions comes to, the first of which has the last word.
pub record IsMerged (as' : List RuleAction) (m : RuleAction) : Type 0 where
  pub protocol : IsFirst (λ a. a.protocol) [] m.protocol as'
  pub efforts : IsFirstEffort m.effort m.effort_mode as'
  pub temperature_mode : IsFirst (λ a. a.temperature_mode) [] m.temperature_mode as'
  pub thinking : IsFirst (λ a. a.thinking) [] m.thinking as'
  pub max_tokens : IsFirst (λ a. a.max_tokens) none m.max_tokens as'
  pub qpm : IsFirst (λ a. a.qpm) none m.qpm as'
  pub enabled : IsFirst (λ a. a.enable_time_range) [] m.enable_time_range as'
  pub disabled : IsFirst (λ a. a.disable_time_range) [] m.disable_time_range as'
  pub retries : IsFirst (λ a. a.retries) none m.retries as'

is_set_iff : (t : Text) → ((is_set t ≡ true) → t ≢ []) × ((is_set t ≡ false) → t ≡ [])
unfolding text_eq
is_set_iff [] = (λ e z. cc, λ e. refl)
is_set_iff (c ∷ t) = (λ e z. cc, λ e. cc)

over_text-IsFirst :
    (f : RuleAction → Text) (a : RuleAction) (as' : List RuleAction) (v : Text)
    → IsFirst f [] v as'
    → IsFirst f [] (over_text (f a) v) (a ∷ as')
over_text-IsFirst f a as' v h = elim (Bool-cases (is_set (f a))) [
  | inl e ↦ inl ((is_set_iff (f a)).0 e, rw e refl)
  | inr e ↦
      inr ((is_set_iff (f a)).1 e, subst (λ z. IsFirst f [] z as') (sym (unset (is_set (f a)) e)) h)
]
  where
    unset : (b : Bool) → b ≡ false → (if b then f a else v) ≡ v
    unset b e = rw e refl

List-cases : (xs : List Text) → (xs ≡ []) ⊎ ((y : Text) × (ys : List Text) × (xs ≡ y ∷ ys))
List-cases [] = inl refl
List-cases (y ∷ ys) = inr (y, ys, refl)

over_list-IsFirst :
    (f : RuleAction → List Text) (a : RuleAction) (as' : List RuleAction) (v : List Text)
    → IsFirst f [] v as'
    → IsFirst f [] (over_list (f a) v) (a ∷ as')
over_list-IsFirst f a as' v h = elim (List-cases (f a)) [
  | inl e ↦ inr (e, subst (λ z. IsFirst f [] (over_list z v) as') (sym e) h)
  | inr (x, xs, e) ↦ inl (λ z. cc, rw e refl)
]

over_option-IsFirst :
    (f : RuleAction → Option ℤ) (a : RuleAction) (as' : List RuleAction) (v : Option ℤ)
    → IsFirst f none v as'
    → IsFirst f none (over_option (f a) v) (a ∷ as')
over_option-IsFirst f a as' v h = elim (Option-cases (f a)) [
  | inl e ↦ inr (e, subst (λ z. IsFirst f none (over_option z v) as') (sym e) h)
  | inr (n, e) ↦ inl (λ z. cc, rw e refl)
]

merged_effort-IsFirstEffort :
    (a m : RuleAction) (as' : List RuleAction)
    → IsFirstEffort m.effort m.effort_mode as'
    → IsFirstEffort (merged_effort m a) (merged_effort_mode m a) (a ∷ as')
merged_effort-IsFirstEffort a m as' h = elim (Bool-cases (is_set a.effort_mode)) [
  | inl e ↦ inl ((is_set_iff a.effort_mode).0 e, rw e refl, rw e refl)
  | inr e ↦
      let bare = (is_set_iff a.effort_mode).1 e in
      elim (List-cases a.effort) [
        | inl n ↦ inr (
            inr (
              bare,
              n,
              subst (λ z. IsFirstEffort z (merged_effort_mode m a) as') (sym (rw (e, n) refl))
                  (subst (λ z. IsFirstEffort m.effort z as') (sym (rw (e, n) refl)) h),
            ))
        | inr (x, xs, n) ↦ inr (inl (bare, λ z. cc, rw (e, n) refl, rw (e, n) refl))
      ]
]

merge_action-IsMerged :
    (a m : RuleAction) (as' : List RuleAction)
    → IsMerged as' m
    → IsMerged (a ∷ as') (merge_action m a)
unfolding merge_action
merge_action-IsMerged a m as' h = record {
  protocol = over_text-IsFirst (λ a. a.protocol) a as' m.protocol h.protocol;
  efforts = merged_effort-IsFirstEffort a m as' h.efforts;
  temperature_mode =
      over_text-IsFirst (λ a. a.temperature_mode) a as' m.temperature_mode h.temperature_mode;
  thinking = over_text-IsFirst (λ a. a.thinking) a as' m.thinking h.thinking;
  max_tokens = over_option-IsFirst (λ a. a.max_tokens) a as' m.max_tokens h.max_tokens;
  qpm = over_option-IsFirst (λ a. a.qpm) a as' m.qpm h.qpm;
  enabled = over_list-IsFirst (λ a. a.enable_time_range) a as' m.enable_time_range h.enabled;
  disabled = over_list-IsFirst (λ a. a.disable_time_range) a as' m.disable_time_range h.disabled;
  retries = over_option-IsFirst (λ a. a.retries) a as' m.retries h.retries;
}

evaluate_from-IsMerged :
    (acc : List RuleAction) (m : RuleAction) (rules : List RuleConfig) (ctx : MatchContext)
    → IsMerged acc m
    → IsMerged (hits_from acc rules ctx) (evaluate_from m rules ctx)
unfolding evaluate_from
evaluate_from-IsMerged acc m [] ctx h = h
evaluate_from-IsMerged acc m (r ∷ rules) ctx h = elim (Bool-cases (match_rule r.match ctx)) [
  | inl e ↦ rw e (
      evaluate_from-IsMerged (r.action ∷ acc) (merge_action m r.action) rules ctx
        (merge_action-IsMerged r.action m acc h))
  | inr e ↦ rw e (evaluate_from-IsMerged acc m rules ctx h)
]

-- Each class of the merged action is that of the last matching rule which sets it, and unset when none
-- does; except that effort levels and an effort mode count as one class, in which a rule that sets
-- both sets the mode alone.
pub evaluate-IsMerged :
    (rules : List RuleConfig) (ctx : MatchContext) → IsMerged (hits rules ctx) (evaluate rules ctx)
unfolding evaluate empty_action
evaluate-IsMerged rules ctx = evaluate_from-IsMerged [] empty_action rules ctx (record {
  protocol = refl;
  efforts = (refl, refl);
  temperature_mode = refl;
  thinking = refl;
  max_tokens = refl;
  qpm = refl;
  enabled = refl;
  disabled = refl;
  retries = refl;
})

and_false : (b : Bool) → (b && false) ≡ false
and_false true = refl
and_false false = refl

exclusive :
    (levels : List Text) (mode : Text) (as' : List RuleAction)
    → IsFirstEffort levels mode as'
    → (has_items levels && is_set mode) ≡ false
unfolding text_eq
exclusive levels mode [] h = rw h.0 refl
exclusive levels mode (a ∷ as') (inl h) = rw h.1 refl
exclusive levels mode (a ∷ as') (inr (inl h)) = rw h.3 (and_false (has_items levels))
exclusive levels mode (a ∷ as') (inr (inr h)) = exclusive levels mode as' h.2

-- However the rules are written, the merged action never both limits the effort to levels and
-- strips it.
pub evaluate-exclusive :
    (rules : List RuleConfig) (ctx : MatchContext)
    → (has_items (evaluate rules ctx).effort && is_set (evaluate rules ctx).effort_mode) ≡ false
evaluate-exclusive rules ctx =
    let m = evaluate rules ctx in
    exclusive m.effort m.effort_mode (hits rules ctx) (evaluate-IsMerged rules ctx).efforts

over_protocol :
    (table : ℕ → ℕ) (o n : Text)
    → (is_set o ≡ true → protocol_ok table o ≡ true)
    → (is_set n ≡ true → protocol_ok table n ≡ true)
    → is_set (over_text n o) ≡ true
    → protocol_ok table (over_text n o) ≡ true
over_protocol table o n p q = elim (Bool-cases (is_set n)) [
  | inl e ↦ rw e (λ _. q e)
  | inr e ↦ rw e p
]

IsSane-merge_action :
    (table : ℕ → ℕ) (old new : RuleAction)
    → IsSane table old
    → IsSane table new
    → IsSane table (merge_action old new)
unfolding merge_action
IsSane-merge_action table old new h k = record {
  max_tokens = over IsPositive old.max_tokens new.max_tokens h.max_tokens k.max_tokens;
  qpm = over IsPositive old.qpm new.qpm h.qpm k.qpm;
  retries = over IsRetryCount old.retries new.retries h.retries k.retries;
  enabled = over_ranges old.enable_time_range new.enable_time_range h.enabled k.enabled;
  disabled = over_ranges old.disable_time_range new.disable_time_range h.disabled k.disabled;
  protocol = over_protocol table old.protocol new.protocol h.protocol k.protocol;
}
  where
    over : (P : Option ℤ → Type 0) (o n : Option ℤ) → P o → P n → P (over_option n o)
    over P o none p q = p
    over P o (some n) p q = q

    over_ranges : (o n : List Text) → AllRanges o → AllRanges n → AllRanges (over_list n o)
    over_ranges o [] p q = p
    over_ranges o (x ∷ n) p q = q

evaluate_from-IsSane :
    (table : ℕ → ℕ) (merged : RuleAction) (rules : List RuleConfig) (ctx : MatchContext)
    → IsSane table merged
    → All (λ r. IsSane table r.action) rules
    → IsSane table (evaluate_from merged rules ctx)
unfolding evaluate_from
evaluate_from-IsSane table merged [] ctx h k = h
evaluate_from-IsSane table merged (r ∷ rules) ctx h k = elim (Bool-cases (match_rule r.match ctx)) [
  | inl e ↦ rw e (
      evaluate_from-IsSane table (merge_action merged r.action) rules ctx
        (IsSane-merge_action table merged r.action h k.0) k.1)
  | inr e ↦ rw e (evaluate_from-IsSane table merged rules ctx h k.1)
]

-- For rules that the validation accepts, the merged action of any request has, as far as they are
-- set, a positive max_tokens and rate, at most two retries, a known protocol, and time ranges that
-- all parse.
pub evaluate-IsSane :
    (table : ℕ → ℕ) (rules : List RuleConfig) (ctx : MatchContext)
    → validate_rules table rules ≡ []
    → IsSane table (evaluate rules ctx)
unfolding evaluate text_eq
evaluate-IsSane table rules ctx h =
    evaluate_from-IsSane table empty_action rules ctx empty_sane
      (validate_rules-IsSane table rules h)
  where
    empty_sane : IsSane table empty_action
    empty_sane = record {
      max_tokens = tt;
      qpm = tt;
      retries = tt;
      enabled = tt;
      disabled = tt;
      protocol = λ e. cc;
    }
