-- ===== src/Config/Effort/Nearest.antt =====
-- A clamped effort is the nearest allowed level, the higher one of two that are as near.
use oh_my_api.Base.{
  ℕ, ◌≤◌, ◌<◌, ◌≡◌, refl, ◌≢◌, ◌⊎◌, inl, inr, true, false, none, some, List, [], ◌∷◌, arith, All,
  Some, is_some, Text, text_eq, text_eq_iff, trim_space, to_lower, ℤ, pos_part, neg_part, sym, any,
  subst, ap, Bool-cases, Option-cases,
}
use oh_my_api.Config.Effort.{
  effort_rank, distance, Best, start_best, consider_all, value_rank, clamp_effort,
  apply_reasoning_effort, ReasoningEffortAction, replace,
}
use oh_my_api.Config.Effort.Candidates.{
  NoWorse, Chosen, Nearest, consider_all-NoWorse, consider_all-Chosen,
}

effort_rank-bounds :
    (a : Text) {r : ℤ} → effort_rank a ≡ some r → (pos_part r ≤ 4) × (neg_part r ≤ 1)
unfolding effort_rank
effort_rank-bounds a e = ground arith

value_rank-bounds : (v : Text) → (pos_part (value_rank v) ≤ 5) × (neg_part (value_rank v) ≤ 1)
value_rank-bounds v = elim (Option-cases (effort_rank v)) [
  | inl e ↦ ground arith
  | inr (r, e) ↦ ground (arith, effort_rank-bounds v e)
]

distance-small :
    (a b : ℤ)
    → pos_part a ≤ 5
    → neg_part a ≤ 1
    → pos_part b ≤ 4
    → neg_part b ≤ 1
    → distance a b < 100
unfolding distance
distance-small a b h k h' k' = ground arith

effort_rank-empty : effort_rank [] ≡ none
unfolding effort_rank text_eq
effort_rank-empty = refl

-- The loop's first values do not survive a known level.
never_starts :
    (v : ℤ) (a : Text) (allowed : List Text) {b : Best}
    → (pos_part v ≤ 5) × (neg_part v ≤ 1)
    → is_some (effort_rank a) ≡ true
    → b ≡ start_best
    → All (Nearest v b.gap b.rank) (a ∷ allowed)
    → ⊥
never_starts v a allowed bound known e near = elim (Option-cases (effort_rank a)) [
  | inl absent ↦ ground arith
  | inr (r, ranked) ↦
      let small =
        distance-small v r bound.0 bound.1 (effort_rank-bounds a ranked).0
          (effort_rank-bounds a ranked).1 in
      let far = near.0 r ranked in ground arith
]

clamp-Chosen :
    (value : Text) (allowed : List Text)
    → Chosen (value_rank value) allowed (consider_all (value_rank value) allowed start_best)
    → clamp_effort value allowed ≡ (consider_all (value_rank value) allowed start_best).effort
unfolding clamp_effort
clamp-Chosen value allowed c =
    let best = consider_all (value_rank value) allowed start_best in
    elim (Bool-cases (text_eq best.effort [])) [
      | inl empty ↦
          let e = (text_eq_iff best.effort []).0 empty in
          let r = c.ranked in ground (arith, effort_rank-empty, ap effort_rank e)
      | inr full ↦ rw full
    ]

-- One of the allowed levels, with no other that is nearer to the rank `v`, or as near and higher.
abbrev pub IsNearest : ℤ → List Text → Text → Type 0
IsNearest v allowed t =
    (k : ℤ) × (effort_rank t ≡ some k)
    × Some (λ a. a ≡ t) allowed
    × All (Nearest v (distance v k) k) allowed

clamp_effort-IsNearest :
    (value : Text) (a : Text) (allowed : List Text)
    → is_some (effort_rank a) ≡ true
    → IsNearest (value_rank value) (a ∷ allowed) (clamp_effort value (a ∷ allowed))
clamp_effort-IsNearest value a allowed known = go (consider_all-Chosen v all start_best)
  where
    v : ℤ
    v = value_rank value

    all : List Text
    all = a ∷ allowed

    best : Best
    best = consider_all v all start_best

    near : All (Nearest v best.gap best.rank) all
    near = (consider_all-NoWorse v all start_best).1

    go : (best ≡ start_best) ⊎ Chosen v all best → IsNearest v all (clamp_effort value all)
    go (inl e) = absurd (never_starts v a allowed (value_rank-bounds value) known e near)
    go (inr c) =
        subst (IsNearest v all) (sym (clamp-Chosen value all c))
          (best.rank, c.ranked, c.member, subst (λ g. All (Nearest v g best.rank) all) c.apart near)

exact-NoWorse : (v r : ℤ) → NoWorse (distance v v) v (distance v r) r
unfolding distance
exact-NoWorse v r = ground arith

exact-Nearest : (v : ℤ) (allowed : List Text) → All (Nearest v (distance v v) v) allowed
exact-Nearest v [] = tt
exact-Nearest v (a ∷ allowed) = (λ r e. exact-NoWorse v r, exact-Nearest v allowed)

any-Some : (t : Text) (xs : List Text) → any (λ x. text_eq x t) xs ≡ true → Some (λ x. x ≡ t) xs
any-Some t [] h = cc
any-Some t (x ∷ xs) h = elim (Bool-cases (text_eq x t)) [
  | inl e ↦ inl ((text_eq_iff x t).0 e)
  | inr e ↦ inr (any-Some t xs (rw e at h))
]

known_member :
    (t : Text) (xs : List Text)
    → All (λ a. is_some (effort_rank a) ≡ true) xs
    → Some (λ a. a ≡ t) xs
    → is_some (effort_rank t) ≡ true
known_member t [] h m = absurd m
known_member t (x ∷ xs) h (inl e) = subst (λ y. is_some (effort_rank y) ≡ true) e h.0
known_member t (x ∷ xs) h (inr m) = known_member t xs h.1 m

exact-IsNearest :
    (t : Text) (allowed : List Text)
    → is_some (effort_rank t) ≡ true
    → Some (λ a. a ≡ t) allowed
    → IsNearest (value_rank t) allowed t
exact-IsNearest t allowed known m = elim (Option-cases (effort_rank t)) [
  | inl e ↦ ground arith
  | inr (r, e) ↦
      let same : value_rank t ≡ r = ground arith in
      subst (λ v. IsNearest v allowed t) (sym same) (r, e, m, exact-Nearest r allowed)
]

module _ (table : ℕ → ℕ) (value a : Text) (allowed : List Text) (ne : trim_space value ≢ []) where
  apply_exact :
      any (λ x. text_eq x (to_lower table (trim_space value))) (a ∷ allowed) ≡ true
      → apply_reasoning_effort table value (a ∷ allowed)
        ≡ (to_lower table (trim_space value), replace)
  unfolding apply_reasoning_effort
  apply_exact e = ground (arith, text_eq_iff (trim_space value) [])

  apply_clamped :
      any (λ x. text_eq x (to_lower table (trim_space value))) (a ∷ allowed) ≡ false
      → apply_reasoning_effort table value (a ∷ allowed)
        ≡ (clamp_effort (to_lower table (trim_space value)) (a ∷ allowed), replace)
  unfolding apply_reasoning_effort
  apply_clamped e = ground (arith, text_eq_iff (trim_space value) [])

-- With known levels allowed, a value that is not blank is replaced by the nearest of them: it is
-- one of the allowed levels, and none of them is nearer to the rank of the trimmed value in lower
-- case, or as near and higher. (The rank of an unknown value is above that of all levels.)
pub apply_reasoning_effort-IsNearest :
    (table : ℕ → ℕ) (value : Text) (a : Text) (allowed : List Text)
    → All (λ x. is_some (effort_rank x) ≡ true) (a ∷ allowed)
    → trim_space value ≢ []
    → let (t, action) = apply_reasoning_effort table value (a ∷ allowed) in
      (action ≡ replace)
      × IsNearest (value_rank (to_lower table (trim_space value))) (a ∷ allowed) t
apply_reasoning_effort-IsNearest table value a allowed known ne =
    elim (Bool-cases (any (λ x. text_eq x lowered) (a ∷ allowed))) [
      | inl e ↦
          let m = any-Some lowered (a ∷ allowed) e in
          subst Right (sym (apply_exact table value a allowed ne e)) (
            refl,
            exact-IsNearest lowered (a ∷ allowed) (known_member lowered (a ∷ allowed) known m) m,
          )
      | inr e ↦
          subst Right (sym (apply_clamped table value a allowed ne e))
            (refl, clamp_effort-IsNearest lowered a allowed known.0)
    ]
  where
    lowered : Text
    lowered = to_lower table (trim_space value)

    Right : Text × ReasoningEffortAction → Type 0
    Right r = (r.1 ≡ replace) × IsNearest (value_rank lowered) (a ∷ allowed) r.0
