-- ===== src/Health/Invariant.antt =====
-- What holds of the checker after any history of reports, and what a report leaves alone.
use oh_my_api.Base.{
  ℕ, ◌≡◌, refl, ◌≢◌, inl, inr, Bool, true, false, Option, none, some, List, [], ◌∷◌, arith, Text,
  text_eq, text_eq_iff, lookup, lookup-insert, lookup-delete, is_some, Option-cases, leb, ◌-◌,
  if◌then◌else◌,
}
use oh_my_api.Health.{
  Checker, Report, success, failure, marked_for, marked_escalating, is_healthy, cooldown_of,
  new_checker, apply, apply_all, mark_with, mark_unhealthy_escalating,
}

-- An entry of its own cooldown belongs to a provider that is marked, and the gauge shows exactly
-- the marked providers as down.
pub record IsConsistent (c : Checker) (p : Text) : Type 0 where
  pub override_marked :
      is_some (lookup p c.cooldown_override) ≡ true → is_some (lookup p c.unhealthy_at) ≡ true
  pub down_marked : lookup p c.gauge ≡ some false → is_some (lookup p c.unhealthy_at) ≡ true
  pub marked_down : is_some (lookup p c.unhealthy_at) ≡ true → lookup p c.gauge ≡ some false

abbrev pub subject : Report → Text
subject (success q) = q
subject (failure _ q) = q
subject (marked_for _ q _) = q
subject (marked_escalating _ q _ _) = q

by_cases :
    (P : Checker → Type 0) (b : Bool) (o : Option ℕ) {c d e : Checker}
    → P c
    → P d
    → P e
    → P (if b then elim o [ some _ ↦ c | none ↦ d ] else e)
by_cases P true none pc pd pe = pd
by_cases P true (some _) pc pd pe = pc
by_cases P false o pc pd pe = pe

-- The escalating mark leaves the checker as it was, or marks the provider with some cooldown.
escalating_cases :
    (P : Checker → Type 0) (now : ℕ) (q : Text) (base most : ℕ) (c : Checker)
    → P c
    → ((d : ℕ) → P (mark_with now q d c))
    → P (mark_unhealthy_escalating now q base most c)
unfolding mark_unhealthy_escalating
escalating_cases P now q base most c kept marked = elim (Option-cases (lookup q c.unhealthy_at)) [
  | inl e ↦ rw (e, mark_unhealthy_escalating) (marked _)
  | inr (t, e) ↦
      rw (e, mark_unhealthy_escalating)
        (by_cases P (leb (now - t) (cooldown_of c q)) (lookup q c.cooldown_override) kept (marked _)
          (marked _))
]

mark_with-IsConsistent :
    (now : ℕ) (q : Text) (d : ℕ) (c : Checker) (p : Text)
    → IsConsistent c p
    → IsConsistent (mark_with now q d c) p
unfolding mark_with
mark_with-IsConsistent now q d c p h = ground (
  arith,
  lookup-insert q p d c.cooldown_override,
  lookup-insert q p now c.unhealthy_at,
  lookup-insert q p false c.gauge,
)

mark_unhealthy_escalating-IsConsistent :
    (now : ℕ) (q : Text) (base most : ℕ) (c : Checker) (p : Text)
    → IsConsistent c p
    → IsConsistent (mark_unhealthy_escalating now q base most c) p
unfolding mark_unhealthy_escalating
mark_unhealthy_escalating-IsConsistent now q base most c p h =
    escalating_cases (λ c'. IsConsistent c' p) now q base most c h
      (λ d. mark_with-IsConsistent now q d c p h)

apply-IsConsistent :
    (r : Report) (c : Checker) (p : Text) → IsConsistent c p → IsConsistent (apply r c) p
unfolding apply
apply-IsConsistent (success q) c p h = ground (
  arith,
  lookup-delete q p c.cooldown_override,
  lookup-delete q p c.unhealthy_at,
  lookup-insert q p true c.gauge,
)
apply-IsConsistent (failure now q) c p h = ground (
  arith,
  lookup-delete q p c.cooldown_override,
  lookup-insert q p now c.unhealthy_at,
  lookup-insert q p false c.gauge,
)
apply-IsConsistent (marked_for now q d) c p h = mark_with-IsConsistent now q d c p h
apply-IsConsistent (marked_escalating now q base most) c p h =
    mark_unhealthy_escalating-IsConsistent now q base most c p h

apply_all-IsConsistent :
    (rs : List Report) (c : Checker) (p : Text) → IsConsistent c p → IsConsistent (apply_all rs c) p
unfolding apply_all
apply_all-IsConsistent [] c p h = h
apply_all-IsConsistent (r ∷ rs) c p h =
    apply_all-IsConsistent rs (apply r c) p (apply-IsConsistent r c p h)

-- After any history of reports to a new checker, a provider with a cooldown of its own is marked
-- unhealthy, and the health gauge reads false for exactly the marked providers.
pub new-apply_all-IsConsistent :
    (threshold cooldown : ℕ) (rs : List Report) (p : Text)
    → IsConsistent (apply_all rs (new_checker threshold cooldown)) p
unfolding new_checker lookup
new-apply_all-IsConsistent threshold cooldown rs p =
    apply_all-IsConsistent rs (new_checker threshold cooldown) p fresh
  where
    fresh : IsConsistent (new_checker threshold cooldown) p
    fresh = ground arith

mark_with_frame :
    (now' now : ℕ) (q : Text) (d : ℕ) (c : Checker) (p : Text)
    → text_eq q p ≡ false
    → is_healthy (mark_with now q d c) now' p ≡ is_healthy c now' p
unfolding mark_with is_healthy
mark_with_frame now' now q d c p h =
    ground (arith, lookup-insert q p d c.cooldown_override, lookup-insert q p now c.unhealthy_at)

-- A report about one provider changes the health of no other provider, at any time.
pub apply-is_healthy_other :
    (r : Report) (c : Checker) (now : ℕ) (p : Text)
    → subject r ≢ p
    → is_healthy (apply r c) now p ≡ is_healthy c now p
unfolding apply is_healthy
apply-is_healthy_other (success q) c now p h = ground (
  arith,
  text_eq_iff q p,
  lookup-delete q p c.cooldown_override,
  lookup-delete q p c.unhealthy_at,
)
apply-is_healthy_other (failure t q) c now p h = ground (
  arith,
  text_eq_iff q p,
  lookup-delete q p c.cooldown_override,
  lookup-insert q p t c.unhealthy_at,
)
apply-is_healthy_other (marked_for t q d) c now p h =
    mark_with_frame now t q d c p (ground (arith, text_eq_iff q p))
apply-is_healthy_other (marked_escalating t q base most) c now p h =
    escalating_cases (λ c'. is_healthy c' now p ≡ is_healthy c now p) t q base most c refl
      (λ d. mark_with_frame now t q d c p (ground (arith, text_eq_iff q p)))
