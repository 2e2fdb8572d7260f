-- ===== src/Health/Backoff.antt =====
-- The escalating cooldown: one doubling for each cooldown that has run out, up to the cap.
use oh_my_api.Base.{
  ℕ, zero, suc, ◌+◌, ◌-◌, ◌*◌, ◌^◌, ◌≤◌, ◌<◌, min, ◌≡◌, none, some, List, [], ◌∷◌, arith, Text,
  lookup, lookup-insert_self, lookup-delete_self, ltb, length, ◌∙◌, ap, subst,
}
use native.Mathlib.Nat.{pow-suc, mul_assoc, add-zero, zero-add}
use native.Mathlib.Numerals.{add-one}
use oh_my_api.Health.{
  Checker, is_healthy, report_success, mark_with, doubled, mark_unhealthy_escalating,
}

-- A provider that is marked at `t` with the cooldown `d`.
pub record Marked (c : Checker) (p : Text) (t d : ℕ) : Type 0 where
  pub marked_at : lookup p c.unhealthy_at ≡ some t
  pub lasting : lookup p c.cooldown_override ≡ some d

pub mark_with-Marked :
    (now : ℕ) (p : Text) (d : ℕ) (c : Checker) → Marked (mark_with now p d c) p now d
unfolding mark_with
mark_with-Marked now p d c = record {
  marked_at = lookup-insert_self p now c.unhealthy_at;
  lasting = lookup-insert_self p d c.cooldown_override;
}

-- While the provider's own cooldown runs, a further mark changes nothing at all.
pub mark_unhealthy_escalating_within :
    (now : ℕ) (p : Text) (base most t d : ℕ) (c : Checker)
    → Marked c p t d
    → now ≤ t + d
    → mark_unhealthy_escalating now p base most c ≡ c
unfolding mark_unhealthy_escalating
mark_unhealthy_escalating_within now p base most t d c m h = ground arith

-- After it has run out, the next mark doubles it, up to the cap.
mark_unhealthy_escalating_after :
    (now : ℕ) (p : Text) (base most t d : ℕ) (c : Checker)
    → Marked c p t d
    → 0 < d
    → t + d < now
    → mark_unhealthy_escalating now p base most c ≡ mark_with now p (doubled d most) c
unfolding mark_unhealthy_escalating
mark_unhealthy_escalating_after now p base most t d c m pos late = ground arith

-- One mark at each of the given times.
unfoldable pub mark_at : List ℕ → Text → ℕ → ℕ → Checker → Checker
mark_at [] p base most c = c
mark_at (t ∷ ts) p base most c = mark_at ts p base most (mark_unhealthy_escalating t p base most c)

doubled-min : (q most : ℕ) → 0 < most → doubled (min q most) most ≡ min (q * 2) most
unfolding doubled
doubled-min q most h = ground arith

-- The cooldown after `n` doublings.
abbrev pub level : ℕ → ℕ → ℕ → ℕ
level base most n = min (base * 2 ^ n) most

doubled-level :
    (base most n : ℕ) → 0 < most → doubled (level base most n) most ≡ level base most (n + 1)
doubled-level base most n h =
    doubled-min (base * 2 ^ n) most h
    ∙ rw (add-one, pow-suc) (ap (λ q. min q most) (mul_assoc base (2 ^ n) 2))

two_pow_pos : (n : ℕ) → 0 < 2 ^ n
two_pow_pos zero = omega arith
two_pow_pos (suc n) = rw pow-suc (omega (arith, two_pow_pos n))

level-pos : (base most n : ℕ) → 0 < base → 0 < most → 0 < level base most n
level-pos base most n hb hm = grind (arith, two_pow_pos n)

-- Every mark comes after the cooldown before it has run out.
abbrev pub Spaced : (base most n t : ℕ) → List ℕ → Type 0
Spaced base most n t [] = Unit
Spaced base most n t (t' ∷ ts) = (t + level base most n < t') × Spaced base most (n + 1) t' ts

abbrev pub last_of : ℕ → List ℕ → ℕ
last_of t [] = t
last_of t (t' ∷ ts) = last_of t' ts

-- From a marked provider on, each such mark doubles the cooldown.
mark_at-Marked :
    (ts : List ℕ) (p : Text) (base most n t : ℕ) (c : Checker)
    → 0 < base
    → 0 < most
    → Marked c p t (level base most n)
    → Spaced base most n t ts
    → Marked (mark_at ts p base most c) p (last_of t ts) (level base most (n + length ts))
unfolding mark_at
mark_at-Marked [] p base most n t c hb hm m s = rw add-zero m
mark_at-Marked (t' ∷ ts) p base most n t c hb hm m s =
    let e =
      mark_unhealthy_escalating_after t' p base most t (level base most n) c m
        (level-pos base most n hb hm) s.0 in
    let m' = mark_with-Marked t' p (level base most (n + 1)) c in
    let same : n + 1 + length ts ≡ n + suc (length ts) = omega arith in
    rw (e, doubled-level base most n hm, ← same)
      (mark_at-Marked ts p base most (n + 1) t' (mark_with t' p (level base most (n + 1)) c) hb hm
        m' s.1)

-- The first mark of a provider that is not marked and has no cooldown of its own takes the base,
-- but no more than the cap; an absent base is the default cooldown.
first_mark :
    (now : ℕ) (p : Text) (base most : ℕ) (c : Checker)
    → lookup p c.unhealthy_at ≡ none
    → lookup p c.cooldown_override ≡ none
    → 0 < base
    → 0 < most
    → Marked (mark_unhealthy_escalating now p base most c) p now (level base most 0)
unfolding mark_unhealthy_escalating mark_with
first_mark now p base most c u o hb hm =
    let e = lookup-insert_self p now c.unhealthy_at in
    record {
      marked_at = ground (arith, e);
      lasting = ground (arith, lookup-insert_self p (min (base * 1) most) c.cooldown_override);
    }

-- A marked provider is unhealthy exactly as long as its cooldown runs.
pub Marked-is_healthy :
    (c : Checker) (p : Text) (t d now : ℕ) → Marked c p t d → is_healthy c now p ≡ ltb d (now - t)
unfolding is_healthy
Marked-is_healthy c p t d now m = ground arith

-- With a positive base and cap: after a success, marks that come one by one, each after the
-- running cooldown has ended, take the base first and then double it, so that after `1 + k` marks
-- the provider is marked at the time of the last one for min(base * 2^k, cap).
pub report_success-mark_at :
    (t : ℕ) (ts : List ℕ) (p : Text) (base most : ℕ) (c : Checker)
    → 0 < base
    → 0 < most
    → Spaced base most 0 t ts
    → Marked
        (mark_at (t ∷ ts) p base most (report_success p c))
        p
        (last_of t ts)
        (level base most (length ts))
unfolding mark_at report_success
report_success-mark_at t ts p base most c hb hm s =
    let d = report_success p c in
    subst (λ k. Marked (mark_at (t ∷ ts) p base most d) p (last_of t ts) (level base most k))
      (zero-add (length ts))
      (mark_at-Marked ts p base most 0 t (mark_unhealthy_escalating t p base most d) hb hm
        (first_mark t p base most d (lookup-delete_self p c.unhealthy_at)
          (lookup-delete_self p c.cooldown_override) hb hm)
        s)
