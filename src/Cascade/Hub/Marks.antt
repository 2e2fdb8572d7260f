-- ===== src/Cascade/Hub/Marks.antt =====
-- What the reports of a hub (internal/cascade/health.go) leave with the health checker.
use oh_my_api.Base.{
  ℕ, ◌≤◌, ◌≡◌, refl, ap, subst, inl, inr, none, List, [], ◌∷◌, Bool-cases, Text, text_eq,
  text_eq_iff, lookup, lookup-insert, lookup-delete, Some, ◌⊎◌, not_both,
}
use oh_my_api.Health.{Checker, report_success, mark_unhealthy_for, mark_with, make_health_key}
use oh_my_api.Health.Backoff.{Marked, mark_with-Marked}
use oh_my_api.Cascade.Hub.{pinned_unhealthy_cooldown, report_healthy_for, report_unhealthy_for}

-- What the checker holds of a key while there is no session: a mark of a year, between two times.
module _ (start now : ℕ) where
  abbrev pub IsPinned : Checker → Text → Type 0
  IsPinned c key = (t : ℕ) × (start ≤ t) × (t ≤ now) × Marked c key t pinned_unhealthy_cooldown

  pub mark-IsPinned :
      (t : ℕ) (q : Text) (c : Checker) (key : Text)
      → start ≤ t
      → t ≤ now
      → IsPinned c key
      → IsPinned (mark_unhealthy_for t q pinned_unhealthy_cooldown c) key
  unfolding mark_unhealthy_for mark_with
  mark-IsPinned t q c key lo hi (t', lo', hi', m) = elim (Bool-cases (text_eq q key)) [
    | inl e ↦ (
      t,
      lo,
      hi,
      record { marked_at = rw (lookup-insert, e) refl; lasting = rw (lookup-insert, e) refl },
    )
    | inr e ↦ (
      t',
      lo',
      hi',
      record {
        marked_at = rw (lookup-insert, e) m.marked_at;
        lasting = rw (lookup-insert, e) m.lasting;
      },
    )
  ]

  pub report_unhealthy_for-IsPinned :
      (t : ℕ) (protos : List Text) (provider : Text) (c : Checker) (proto : Text)
      → start ≤ t
      → t ≤ now
      → Some (λ p. p ≡ proto) protos ⊎ IsPinned c (make_health_key provider proto)
      → IsPinned (report_unhealthy_for t protos provider c) (make_health_key provider proto)
  unfolding report_unhealthy_for mark_unhealthy_for mark_with
  report_unhealthy_for-IsPinned t [] provider c proto lo hi (inl s) = absurd s
  report_unhealthy_for-IsPinned t [] provider c proto lo hi (inr m) = m
  report_unhealthy_for-IsPinned t (p ∷ protos) provider c proto lo hi (inl s) =
      report_unhealthy_for-IsPinned t protos provider _ proto lo hi (elim s [
        | inl same ↦ inr (
            subst
              (λ x.
                IsPinned
                  (mark_unhealthy_for t (make_health_key provider p) pinned_unhealthy_cooldown c)
                  (make_health_key provider x))
              same
              (
                t,
                lo,
                hi,
                mark_with-Marked t (make_health_key provider p) pinned_unhealthy_cooldown c,
              ))
        | inr later ↦ inl later
      ])
  report_unhealthy_for-IsPinned t (p ∷ protos) provider c proto lo hi (inr m) =
      report_unhealthy_for-IsPinned t protos provider _ proto lo hi (
        inr
          (mark-IsPinned t (make_health_key provider p) c (make_health_key provider proto) lo hi m))

-- What it holds while there is one: no mark.
abbrev pub IsFree : Checker → Text → Type 0
IsFree c key = lookup key c.unhealthy_at ≡ none

pub success-IsFree :
    (q : Text) (c : Checker) (key : Text)
    → (q ≡ key) ⊎ IsFree c key
    → IsFree (report_success q c) key
unfolding report_success
success-IsFree q c key h = elim (Bool-cases (text_eq q key)) [
  | inl e ↦ rw (lookup-delete, e) refl
  | inr e ↦ elim h [
    | inl same ↦ absurd (not_both (text_eq q key) ((text_eq_iff q key).1 same) e)
    | inr free ↦ rw (lookup-delete, e) free
  ]
]

pub report_healthy_for-IsFree :
    (protos : List Text) (provider : Text) (c : Checker) (proto : Text)
    → Some (λ p. p ≡ proto) protos ⊎ IsFree c (make_health_key provider proto)
    → IsFree (report_healthy_for protos provider c) (make_health_key provider proto)
unfolding report_healthy_for
report_healthy_for-IsFree [] provider c proto (inl s) = absurd s
report_healthy_for-IsFree [] provider c proto (inr m) = m
report_healthy_for-IsFree (p ∷ protos) provider c proto (inl s) =
    report_healthy_for-IsFree protos provider _ proto (elim s [
      | inl same ↦ inr (
          success-IsFree (make_health_key provider p) c (make_health_key provider proto)
            (inl (ap (make_health_key provider) same)))
      | inr later ↦ inl later
    ])
report_healthy_for-IsFree (p ∷ protos) provider c proto (inr m) =
    report_healthy_for-IsFree protos provider _ proto
      (inr (success-IsFree (make_health_key provider p) c (make_health_key provider proto) (inr m)))
