-- ===== src/Config/Effort/Candidates.antt =====
-- internal/config/effort.go, the loop of clampEffort: what it keeps of the levels it has seen.
use oh_my_api.Base.{
  ℕ, ◌<◌, ◌≡◌, refl, ◌⊎◌, inl, inr, none, some, List, [], ◌∷◌, arith, All, Some, Text, ℤ, ◌≤ℤ◌, ◌∙◌,
  subst, Option-cases,
}
use oh_my_api.Config.Effort.{effort_rank, distance, Best, take_better, consider, consider_all}

-- `(g, k)` is at least as good as `(d, r)`: less far, or as far and no lower.
abbrev pub NoWorse : ℕ → ℤ → ℕ → ℤ → Type 0
NoWorse g k d r = (g < d) ⊎ ((g ≡ d) × (r ≤ℤ k))

NoWorse-trans : (g d e : ℕ) (k r s : ℤ) → NoWorse g k d r → NoWorse d r e s → NoWorse g k e s
NoWorse-trans g d e k r s (inl x) (inl y) = inl (omega arith)
NoWorse-trans g d e k r s (inl x) (inr y) = inl (omega arith)
NoWorse-trans g d e k r s (inr x) (inl y) = inl (omega arith)
NoWorse-trans g d e k r s (inr x) (inr y) = inr (omega arith, omega arith)

take_better-NoWorse :
    (v : ℤ) (a : Text) (r : ℤ) (b : Best)
    → let b' = take_better v a r b in
      NoWorse b'.gap b'.rank b.gap b.rank × NoWorse b'.gap b'.rank (distance v r) r
take_better-NoWorse v a r b = ground arith

-- What the loop keeps is an allowed level, with its rank and its distance.
pub record Chosen (v : ℤ) (allowed : List Text) (b : Best) : Type 0 where
  pub member : Some (λ a. a ≡ b.effort) allowed
  pub ranked : effort_rank b.effort ≡ some b.rank
  pub apart : b.gap ≡ distance v b.rank

abbrev pub Nearest : ℤ → ℕ → ℤ → Text → Type 0
Nearest v g k a = (r : ℤ) → effort_rank a ≡ some r → NoWorse g k (distance v r) r

consider-none : (v : ℤ) (a : Text) (b : Best) → effort_rank a ≡ none → consider v a b ≡ b
consider-none v a b e = rw (e, consider)

consider-some :
    (v : ℤ) (a : Text) (b : Best) {r : ℤ}
    → effort_rank a ≡ some r
    → consider v a b ≡ take_better v a r b
consider-some v a b e = rw (e, consider)

consider-NoWorse :
    (v : ℤ) (a : Text) (b : Best)
    → let b' = consider v a b in NoWorse b'.gap b'.rank b.gap b.rank × Nearest v b'.gap b'.rank a
consider-NoWorse v a b = elim (Option-cases (effort_rank a)) [
  | inl e ↦ rw (consider-none v a b e) (inr (refl, omega arith), λ r e'. cc)
  | inr (k, e) ↦
      let (x, y) = take_better-NoWorse v a k b in
      rw (consider-some v a b e) (
        x,
        λ r e'.
            let same : k ≡ r = cc in
            subst
              (λ q. NoWorse (take_better v a k b).gap (take_better v a k b).rank (distance v q) q)
              same y,
      )
]

pub consider_all-NoWorse :
    (v : ℤ) (xs : List Text) (b : Best)
    → let b' = consider_all v xs b in
      NoWorse b'.gap b'.rank b.gap b.rank × All (Nearest v b'.gap b'.rank) xs
unfolding consider_all
consider_all-NoWorse v [] b = (inr (refl, omega arith), tt)
consider_all-NoWorse v (a ∷ xs) b =
    let c = consider v a b in
    let b' = consider_all v xs c in
    let (x, near) = consider-NoWorse v a b in
    let (y, rest) = consider_all-NoWorse v xs c in
    (
      NoWorse-trans b'.gap c.gap b.gap b'.rank c.rank b.rank y x,
      (λ r e. NoWorse-trans b'.gap c.gap (distance v r) b'.rank c.rank r y (near r e), rest),
    )

take_better_cases :
    (v : ℤ) (a : Text) (r : ℤ) (b : Best)
    → (take_better v a r b ≡ b)
      ⊎ (take_better v a r b ≡ record { effort = a; gap = distance v r; rank = r })
take_better_cases v a r b = ground arith

consider-Chosen :
    (v : ℤ) (a : Text) (b : Best) → (consider v a b ≡ b) ⊎ Chosen v (a ∷ []) (consider v a b)
consider-Chosen v a b = elim (Option-cases (effort_rank a)) [
  | inl e ↦ inl (consider-none v a b e)
  | inr (k, e) ↦ rw (consider-some v a b e) (elim (take_better_cases v a k b) [
    | inl same ↦ inl same
    | inr new ↦ inr (rw new (record { member = inl refl; ranked = e; apart = refl }))
  ])
]

pub consider_all-Chosen :
    (v : ℤ) (xs : List Text) (b : Best)
    → (consider_all v xs b ≡ b) ⊎ Chosen v xs (consider_all v xs b)
unfolding consider_all
consider_all-Chosen v [] b = inl refl
consider_all-Chosen v (a ∷ xs) b = elim (consider_all-Chosen v xs (consider v a b)) [
  | inr c ↦ inr (record { member = inr c.member; ranked = c.ranked; apart = c.apart })
  | inl e ↦ elim (consider-Chosen v a b) [ inl e' ↦ inl (e ∙ e') | inr c ↦ inr (rw e (widen c)) ]
]
  where
    widen : {b : Best} → Chosen v (a ∷ []) b → Chosen v (a ∷ xs) b
    widen c = record {
      member = elim c.member [ inl m ↦ inl m | inr m ↦ absurd m ];
      ranked = c.ranked;
      apart = c.apart;
    }
