-- ===== src/Scheduler/Sticky/Deficit.antt =====
-- Which candidate has the largest deficit.
use oh_my_api.Base.{
  ℕ, ◌*◌, ◌≤◌, ◌≡◌, refl, ◌∙◌, inl, inr, ◌⊎◌, true, false, List, [], ◌∷◌, arith, if◌then◌else◌,
  Text, All, Some, Map, lookup, lookup_or_zero, ℤ, Bool-cases,
}
use native.Mathlib.Nat.{mul-le-mul_right, le_of_mul-le-mul_right}
use oh_my_api.Scheduler.Sticky.{
  StickyStore, get_success_counts, effective_weight, weight_of, beats, best_of, pick_deficit,
  weight_in,
}

effective_weight-positive : (w : ℤ) → 1 ≤ effective_weight w
unfolding effective_weight
effective_weight-positive w = ground arith

weight_of-positive : (weights : Map ℤ) (c : Text) → 1 ≤ weight_of weights c
unfolding weight_of
weight_of-positive weights c = effective_weight-positive (weight_in (lookup c weights))

-- Fractions with a positive denominator in the middle are ordered transitively.
cross_trans : (a b c d e f : ℕ) → 1 ≤ d → a * d ≤ c * b → c * f ≤ e * d → a * f ≤ e * b
cross_trans a b c d e f pos p q =
    let p' = mul-le-mul_right f p in
    let q' = mul-le-mul_right b q in
    le_of_mul-le-mul_right {k = d} (grind (arith, p', q')) (omega (arith, pos))

module _ (counts : Map ℕ) (weights : Map ℤ) where
  -- The quotient of count and weight is no larger.
  abbrev pub NoMore : Text → Text → Type 0
  NoMore c d =
      lookup_or_zero c counts * weight_of weights d ≤ lookup_or_zero d counts * weight_of weights c

  beats-NoMore :
      (c best : Text)
      → (beats counts weights c best ≡ true → NoMore c best)
        × (beats counts weights c best ≡ false → NoMore best c)
  unfolding beats
  beats-NoMore c best = (λ e. ground (arith, e), λ e. ground (arith, e))

  abbrev better : Text → Text → Text
  better best c = if beats counts weights c best then c else best

  better-NoMore :
      (best c : Text)
      → NoMore (better best c) best
        × NoMore (better best c) c
        × ((better best c ≡ best) ⊎ (better best c ≡ c))
  better-NoMore best c = elim (Bool-cases (beats counts weights c best)) [
    | inl e ↦ rw e ((beats-NoMore c best).0 e, omega arith, inr refl)
    | inr e ↦ rw e (omega arith, (beats-NoMore c best).1 e, inl refl)
  ]

  NoMore-trans : (a b c : Text) → NoMore a b → NoMore b c → NoMore a c
  NoMore-trans a b c h k =
      cross_trans (lookup_or_zero a counts) (weight_of weights a) (lookup_or_zero b counts)
        (weight_of weights b) (lookup_or_zero c counts) (weight_of weights c)
        (weight_of-positive weights b) h k

  best_of-NoMore :
      (best : Text) (cs : List Text)
      → NoMore (best_of counts weights best cs) best
        × All (λ c. NoMore (best_of counts weights best cs) c) cs
        × Some (λ c. best_of counts weights best cs ≡ c) (best ∷ cs)
  unfolding best_of
  best_of-NoMore best [] = (omega arith, tt, inl refl)
  best_of-NoMore best (c ∷ cs) =
      let next = better best c in
      let (below, rest, mem) = best_of-NoMore next cs in
      let (p, q, two) = better-NoMore best c in
      let best' = best_of counts weights next cs in
      (
        NoMore-trans best' next best below p,
        (NoMore-trans best' next c below q, rest),
        among best' next best c cs mem two,
      )
    where
      among :
          (x next best c : Text) (cs : List Text)
          → Some (λ y. x ≡ y) (next ∷ cs)
          → (next ≡ best) ⊎ (next ≡ c)
          → Some (λ y. x ≡ y) (best ∷ c ∷ cs)
      among x next best c cs (inl e) (inl k) = inl (e ∙ k)
      among x next best c cs (inl e) (inr k) = inr (inl (e ∙ k))
      among x next best c cs (inr m) two = inr (inr m)

-- The choice by deficit is one of the candidates, and none of them has a smaller quotient of
-- successes and weight.
pub pick_deficit-least :
    (group c : Text) (cs : List Text) (weights : Map ℤ) (s : StickyStore)
    → let picked = pick_deficit group (c ∷ cs) weights s in
      Some (λ d. picked ≡ d) (c ∷ cs)
      × All (λ d. NoMore (get_success_counts group s) weights picked d) (c ∷ cs)
unfolding pick_deficit
pick_deficit-least group c cs weights s =
    let (below, rest, mem) = best_of-NoMore (get_success_counts group s) weights c cs in
    (mem, (below, rest))
