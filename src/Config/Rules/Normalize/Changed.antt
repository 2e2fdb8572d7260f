-- ===== src/Config/Rules/Normalize/Changed.antt =====
-- What normalizeReasoningEffortSlice and NormalizeRulesInConfig tell and leave.
use oh_my_api.Base.{
  ℕ, ◌≤◌, ◌≡◌, refl, inl, inr, Bool, true, false, ◌||◌, List, [], ◌∷◌, length, arith, Text,
  text_eq_iff, ap, Option-cases,
}
use oh_my_api.Config.Rules.{RuleAction, RuleConfig}
use oh_my_api.Config.Rules.Normalize.{
  Normalized, lower_trimmed, kept_effort, keep_level, remove_level, normalize_effort_from,
  normalize_reasoning_effort_slice, normalize_protocol, respelled, normalize_rule_action,
  normalize_rule, normalize_rules_in_config,
}

-- The flag is false exactly if the value is the old one.
abbrev pub TellsChange {ℓ} : {A : Type ℓ} → A → Normalized A → Type ℓ
TellsChange old n = (n.changed ≡ false → n.value ≡ old) × (n.value ≡ old → n.changed ≡ false)

respelled_iff :
    (new old : Text)
    → (respelled new old ≡ false → new ≡ old) × (new ≡ old → respelled new old ≡ false)
respelled_iff new old = ground (arith, text_eq_iff new old)

tail_of {ℓ} : {A : Type ℓ} → List A → List A
tail_of [] = []
tail_of (x ∷ xs) = xs

head_or {ℓ} : {A : Type ℓ} → A → List A → A
head_or d [] = d
head_or d (x ∷ xs) = x

or_false : (a b : Bool) → a || b ≡ false → (a ≡ false) × (b ≡ false)
or_false false b h = (refl, h)
or_false true b h = cc

normalize_effort_from-length :
    (table : ℕ → ℕ) (seen ss : List Text)
    → length (normalize_effort_from table seen ss).value ≤ length ss
unfolding normalize_effort_from
normalize_effort_from-length table seen [] = ground arith
normalize_effort_from-length table seen (s ∷ ss) = elim (Option-cases (kept_effort table seen s)) [
  | inl e ↦
      rw (e, normalize_effort_from) (ground (arith, normalize_effort_from-length table seen ss))
  | inr (l, e) ↦
      rw (e, normalize_effort_from)
        (ground (arith, normalize_effort_from-length table (l ∷ seen) ss))
]

remove_level-TellsChange :
    (s : Text) (ss : List Text) (rest : Normalized (List Text))
    → length rest.value ≤ length ss
    → TellsChange (s ∷ ss) (remove_level rest)
remove_level-TellsChange s ss rest h = ((λ e. cc), (λ e. ground (arith, ap length e)))

keep_level-TellsChange :
    (l s : Text) (ss : List Text) (rest : Normalized (List Text))
    → TellsChange ss rest
    → TellsChange (s ∷ ss) (keep_level l s rest)
unfolding head_or tail_of
keep_level-TellsChange l s ss rest h = (
  (λ e.
      let (a, b) = or_false (respelled l s) rest.changed e in
      let same = (respelled_iff l s).0 a in let tail = h.0 b in cc),
  (λ e.
      let same = ap (head_or []) e in
      let a = (respelled_iff l s).1 same in let b = h.1 (ap tail_of e) in rw (a, b) refl),
)

normalize_effort_from-TellsChange :
    (table : ℕ → ℕ) (seen ss : List Text) → TellsChange ss (normalize_effort_from table seen ss)
unfolding normalize_effort_from
normalize_effort_from-TellsChange table seen [] = ((λ _. refl), (λ _. refl))
normalize_effort_from-TellsChange table seen (s ∷ ss) =
    elim (Option-cases (kept_effort table seen s)) [
      | inl e ↦
          rw (e, normalize_effort_from)
            (remove_level-TellsChange s ss (normalize_effort_from table seen ss)
              (normalize_effort_from-length table seen ss))
      | inr (l, e) ↦
          rw (e, normalize_effort_from)
            (keep_level-TellsChange l s ss (normalize_effort_from table (l ∷ seen) ss)
              (normalize_effort_from-TellsChange table (l ∷ seen) ss))
    ]

normalize_rule_action-TellsChange :
    (table : ℕ → ℕ) (a : RuleAction) → TellsChange a (normalize_rule_action table a)
unfolding normalize_rule_action
normalize_rule_action-TellsChange table a = (same, unflagged)
  where
    n : Normalized RuleAction
    n = normalize_rule_action table a

    effort : Normalized (List Text)
    effort = normalize_reasoning_effort_slice table a.effort

    efforts : TellsChange a.effort effort
    efforts = normalize_effort_from-TellsChange table [] a.effort

    protocol_same :
        (respelled (normalize_protocol a.protocol) a.protocol ≡ false
          → normalize_protocol a.protocol ≡ a.protocol)
        × (normalize_protocol a.protocol ≡ a.protocol
            → respelled (normalize_protocol a.protocol) a.protocol ≡ false)
    protocol_same = respelled_iff (normalize_protocol a.protocol) a.protocol

    same : n.changed ≡ false → n.value ≡ a
    same e =
        let (p, e1) = or_false (respelled (normalize_protocol a.protocol) a.protocol) _ e in
        let (f, e2) = or_false effort.changed _ e1 in
        let (m, e3) = or_false (respelled (lower_trimmed table a.effort_mode) a.effort_mode) _ e2 in
        let (t, k) =
          or_false (respelled (lower_trimmed table a.temperature_mode) a.temperature_mode) _ e3 in
        rw
          (
            protocol_same.0 p,
            efforts.0 f,
            (respelled_iff (lower_trimmed table a.effort_mode) a.effort_mode).0 m,
            (respelled_iff (lower_trimmed table a.temperature_mode) a.temperature_mode).0 t,
            (respelled_iff (lower_trimmed table a.thinking) a.thinking).0 k,
          )
          refl

    unflagged : n.value ≡ a → n.changed ≡ false
    unflagged e =
        rw
          (
            (respelled_iff (normalize_protocol a.protocol) a.protocol).1 (ap (λ x. x.protocol) e),
            efforts.1 (ap (λ x. x.effort) e),
            (respelled_iff (lower_trimmed table a.effort_mode) a.effort_mode).1
                (ap (λ x. x.effort_mode) e),
            (respelled_iff (lower_trimmed table a.temperature_mode) a.temperature_mode).1
                (ap (λ x. x.temperature_mode) e),
            (respelled_iff (lower_trimmed table a.thinking) a.thinking).1 (ap (λ x. x.thinking) e),
          )
          refl

cons-TellsChange {ℓ} :
    {A : Type ℓ} (x : A) (xs : List A) (y : Normalized A) (ys : Normalized (List A))
    → TellsChange x y
    → TellsChange xs ys
    → TellsChange
        (x ∷ xs)
        (record { value = y.value ∷ ys.value; changed = y.changed || ys.changed })
unfolding head_or tail_of
cons-TellsChange x xs y ys h t = (
  (λ e. let (a, b) = or_false y.changed ys.changed e in rw (h.0 a, t.0 b) refl),
  (λ e. rw (h.1 (ap (head_or x) e), t.1 (ap tail_of e)) refl),
)

normalize_rule-TellsChange :
    (table : ℕ → ℕ) (r : RuleConfig) → TellsChange r (normalize_rule table r)
unfolding normalize_rule
normalize_rule-TellsChange table r =
    let first = normalize_rule_action-TellsChange table r.action in
    ((λ e. rw (first.0 e) refl), (λ e. first.1 (ap (λ x. x.action) e)))

-- NormalizeRulesInConfig answers false exactly if it leaves all rules as they are.
pub normalize_rules_in_config-TellsChange :
    (table : ℕ → ℕ) (rules : List RuleConfig)
    → TellsChange rules (normalize_rules_in_config table rules)
unfolding normalize_rules_in_config
normalize_rules_in_config-TellsChange table [] = ((λ _. refl), (λ _. refl))
normalize_rules_in_config-TellsChange table (r ∷ rs) =
    cons-TellsChange r rs (normalize_rule table r) (normalize_rules_in_config table rs)
      (normalize_rule-TellsChange table r) (normalize_rules_in_config-TellsChange table rs)
