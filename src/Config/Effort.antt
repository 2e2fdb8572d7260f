-- ===== src/Config/Effort.antt =====
-- internal/config/effort.go: the reasoning effort of a request, clamped to the levels that the
-- configuration allows. `table` is unicode.ToLower beyond ASCII.
mod Candidates
pub mod Nearest
use oh_my_api.Base.{
  ℕ, suc, ◌+◌, Bool, true, false, ◌&&◌, ◌||◌, Option, none, some, List, [], ◌∷◌, ltb, ◌==◌, any,
  if◌then◌else◌, Text, txt, text_eq, trim_space, to_lower, ℤ, pos, negsuc, ltb_ℤ, ◌-ℤ◌, pos_part,
  neg_part,
}

pub data ReasoningEffortAction : Type 0 where
  passthrough replace : ReasoningEffortAction

-- effortRank
unfoldable pub effort_rank : Text → Option ℤ
effort_rank e =
    if text_eq e (txt "none")
    then some (negsuc 0)
    else if text_eq e (txt "low")
    then some (pos 0)
    else if text_eq e (txt "medium")
    then some (pos 1)
    else if text_eq e (txt "high")
    then some (pos 2)
    else if text_eq e (txt "xhigh")
    then some (pos 3)
    else if text_eq e (txt "max")
    then some (pos 4)
    else none

-- abs of the difference of two ranks
unfoldable pub distance : ℤ → ℤ → ℕ
unfolding ◌-ℤ◌
distance a b = let d = a -ℤ b in pos_part d + neg_part d

-- The three variables of the loop of clampEffort.
pub record Best : Type 0 where
  pub effort : Text
  pub gap : ℕ
  pub rank : ℤ

abbrev pub start_best : Best
start_best = record { effort = []; gap = 100; rank = negsuc 0 }

abbrev pub take_better : ℤ → Text → ℤ → Best → Best
take_better value a r b =
    let d = distance value r in
    if ltb d b.gap || ((d == b.gap) && ltb_ℤ b.rank r)
    then record { effort = a; gap = d; rank = r }
    else b

abbrev pub consider : ℤ → Text → Best → Best
consider value a b = elim (effort_rank a) [ none ↦ b | some r ↦ take_better value a r b ]

unfoldable pub consider_all : ℤ → List Text → Best → Best
consider_all value [] b = b
consider_all value (a ∷ as') b = consider_all value as' (consider value a b)

abbrev pub last_or : Text → List Text → Text
last_or d [] = d
last_or d (x ∷ xs) = last_or x xs

-- An unknown value ranks above all levels.
abbrev pub value_rank : Text → ℤ
value_rank v = elim (effort_rank v) [ none ↦ pos 5 | some r ↦ r ]

unfoldable pub clamp_effort : Text → List Text → Text
unfolding consider_all
clamp_effort value allowed =
    let best = consider_all (value_rank value) allowed start_best in
    if text_eq best.effort [] then last_or [] allowed else best.effort

unfoldable pub apply_reasoning_effort : (ℕ → ℕ) → Text → List Text → Text × ReasoningEffortAction
apply_reasoning_effort table value [] = (value, passthrough)
apply_reasoning_effort table value (a ∷ allowed) =
    let trimmed = trim_space value in
    let normalized = to_lower table trimmed in
    if text_eq trimmed []
    then ([], passthrough)
    else if any (λ x. text_eq x normalized) (a ∷ allowed)
    then (normalized, replace)
    else (clamp_effort normalized (a ∷ allowed), replace)
