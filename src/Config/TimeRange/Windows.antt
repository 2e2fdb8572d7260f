-- ===== src/Config/TimeRange/Windows.antt =====
-- What the ranges mean over a day, and which ranges the parser lets through.
use oh_my_api.Base.{
  ℕ, ◌≤◌, ◌<◌, ◌≡◌, ◌≢◌, ◌⊎◌, inl, inr, ◌↔◌, true, none, some, List, [], ◌∷◌, arith, Text, ℤ, pos,
  negsuc, Bool-cases, ◌==◌, if◌then◌else◌, sym, ◌∙◌, >>=-eq-some, Some, split_first, trim_space,
}
use oh_my_api.Config.TimeRange.{
  DisabledTimeRange, minutes_of, parse_minutes, parse_time_range, in_range,
  is_in_disabled_time_range, atoi,
}

-- The range without its case split: a range over midnight is two ranges.
abbrev pub Covers : DisabledTimeRange → ℕ → Type 0
Covers r minute =
    ((r.start ≤ minute) × (minute < r.stop))
    ⊎ ((r.stop ≤ r.start) × ((r.start ≤ minute) ⊎ (minute < r.stop)))

in_range-Covers : (minute : ℕ) (r : DisabledTimeRange) → in_range minute r ≡ true → Covers r minute
unfolding in_range
in_range-Covers minute r h = ground arith

Covers-in_range : (minute : ℕ) (r : DisabledTimeRange) → Covers r minute → in_range minute r ≡ true
unfolding in_range
Covers-in_range minute r (inl h) = ground arith
Covers-in_range minute r (inr h) = ground arith

covered :
    (minute : ℕ) (rs : List DisabledTimeRange)
    → is_in_disabled_time_range minute rs ≡ true
    → Some (λ r. Covers r minute) rs
unfolding is_in_disabled_time_range
covered minute [] h = cc
covered minute (r ∷ rs) h = elim (Bool-cases (in_range minute r)) [
  | inl e ↦ inl (in_range-Covers minute r e)
  | inr e ↦ inr (covered minute rs (rw e at h))
]

disabled :
    (minute : ℕ) (rs : List DisabledTimeRange)
    → Some (λ r. Covers r minute) rs
    → is_in_disabled_time_range minute rs ≡ true
unfolding is_in_disabled_time_range
disabled minute [] h = absurd h
disabled minute (r ∷ rs) (inl h) = rw (Covers-in_range minute r h)
disabled minute (r ∷ rs) (inr h) = ground (arith, disabled minute rs h)

-- A minute of the day is disabled exactly when one of the ranges covers it: from the start up to
-- but without the end, or, over midnight, from the start on or before the end.
pub is_in_disabled_time_range_iff :
    (minute : ℕ) (rs : List DisabledTimeRange)
    → (is_in_disabled_time_range minute rs ≡ true) ↔ Some (λ r. Covers r minute) rs
is_in_disabled_time_range_iff minute rs = (covered minute rs, disabled minute rs)

minutes_of-le : (h m : ℤ) {n : ℕ} → minutes_of h m ≡ some n → n ≤ 1440
unfolding minutes_of
minutes_of-le (negsuc _) m e = cc
minutes_of-le (pos h) (negsuc _) e = cc
minutes_of-le (pos h) (pos m) e = ground arith

parse_minutes-le : (raw : Text) {n : ℕ} → parse_minutes raw ≡ some n → n ≤ 1440
unfolding parse_minutes
parse_minutes-le raw e =
    let (parts, _, e1) = >>=-eq-some (split_first b':' raw) _ e in
    let (h, _, e2) = >>=-eq-some (atoi parts.0) _ e1 in
    let (m, _, e3) = >>=-eq-some (atoi parts.1) _ e2 in minutes_of-le h m e3

distinct_ends :
    (a b : ℕ) {r : DisabledTimeRange}
    → (if a == b then none else some (record { start = a; stop = b })) ≡ some r
    → (r.start ≡ a) × (r.stop ≡ b) × (a ≢ b)
distinct_ends a b e = ground arith

-- A range that the parser accepts has two different ends within the day, 24:00 included.
pub parse_time_range_bounds :
    (raw : Text) {r : DisabledTimeRange}
    → parse_time_range raw ≡ some r
    → (r.start ≤ 1440) × (r.stop ≤ 1440) × (r.start ≢ r.stop)
unfolding parse_time_range
parse_time_range_bounds raw e =
    let (parts, _, e1) = >>=-eq-some (split_first b'-' raw) _ e in
    let (a, ha, e2) = >>=-eq-some (parse_minutes (trim_space parts.0)) _ e1 in
    let (b, hb, e3) = >>=-eq-some (parse_minutes (trim_space parts.1)) _ e2 in
    let (x, y, ne) = distinct_ends a b e3 in
    let below = parse_minutes-le (trim_space parts.0) ha in
    let below' = parse_minutes-le (trim_space parts.1) hb in
    (omega arith, omega arith, λ same. ne (sym x ∙ same ∙ y))
