-- ===== src/Scheduler/Tracker/Correction.antt =====
-- Which candidate findCorrectionCandidate names, and its move to the front.
use mathlib.Core.Option.{some-injective}
use oh_my_api.Base.{
  not_both, ℕ, ◌-◌, ◌≤◌, ◌<◌, ◌≡◌, refl, ◌≢◌, sym, ap, subst, ◌∙◌, ◌⊎◌, inl, inr, true, false,
  Option, none, some, List, [], ◌∷◌, ◌++◌, arith, Bool-cases, Option-cases, Text, text_eq,
  text_eq_iff, Some, All,
}
use oh_my_api.Scheduler.Tracker.{
  CandidateStats, CandidateScore, forced_correction_threshold, is_longest, find_correction,
  move_first,
}

-- A candidate that may be promoted: never selected, or not for more than the threshold.
abbrev pub IsOverdue : ℕ → CandidateStats → Type 0
IsOverdue now s =
    (s.last_selected_at ≡ none)
    ⊎ ((t : ℕ) × (s.last_selected_at ≡ some t) × (forced_correction_threshold < now - t))

abbrev pub WasSelected : CandidateStats → Type 0
WasSelected s = (t : ℕ) × (s.last_selected_at ≡ some t)

-- Selected less than so long ago, or at most so long ago.
abbrev pub Less : ℕ → ℕ → CandidateStats → Type 0
Less now since s = (t : ℕ) × (s.last_selected_at ≡ some t) × (now - t < since)

abbrev pub AtMost : ℕ → ℕ → CandidateStats → Type 0
AtMost now since s = (t : ℕ) × (s.last_selected_at ≡ some t) × (now - t ≤ since)

-- The candidate that is to be tried next whatever its score is: the first that was never selected; or,
-- when all were, the first of those whose selection is longest ago, which is more than the threshold.
abbrev pub IsForced :
    ℕ → (before : List CandidateStats) → CandidateStats → List CandidateStats → Type 0
IsForced now before s behind =
    ((s.last_selected_at ≡ none) × All WasSelected before)
    ⊎ ((t : ℕ) × (s.last_selected_at ≡ some t)
        × (forced_correction_threshold < now - t)
        × All (Less now (now - t)) before
        × All (AtMost now (now - t)) behind)

-- One step of the loop, for its three cases.
pub data Looks (now : ℕ) (key : Option Text) (longest : ℕ) (s : CandidateStats)
    (rest : List CandidateStats) : Type 0 where
  never :
      s.last_selected_at ≡ none
      → find_correction now key longest (s ∷ rest) ≡ some s.key
      → Looks now key longest s rest
  takes :
      (t : ℕ)
      → s.last_selected_at ≡ some t
      → is_longest (now - t) longest ≡ true
      → find_correction now key longest (s ∷ rest) ≡ find_correction now (some s.key) (now - t) rest
      → Looks now key longest s rest
  passes_by :
      (t : ℕ)
      → s.last_selected_at ≡ some t
      → is_longest (now - t) longest ≡ false
      → find_correction now key longest (s ∷ rest) ≡ find_correction now key longest rest
      → Looks now key longest s rest

pub looks :
    (now : ℕ) (key : Option Text) (longest : ℕ) (s : CandidateStats) (rest : List CandidateStats)
    → Looks now key longest s rest
unfolding find_correction
looks now key longest s rest = elim (Option-cases s.last_selected_at) [
  | inl e ↦ never e (rw e refl)
  | inr (t, e) ↦ elim (Bool-cases (is_longest (now - t) longest)) [
    | inl c ↦ takes t e c (rw (e, c) refl)
    | inr c ↦ passes_by t e c (rw (e, c) refl)
  ]
]

-- Selected too recently to be named after a time since a selection.
abbrev Recent : ℕ → ℕ → CandidateStats → Type 0
Recent now longest s =
    (t : ℕ) × (s.last_selected_at ≡ some t)
    × ((now - t ≤ forced_correction_threshold) ⊎ (now - t ≤ longest))

-- What the loop answers from a key and a time on.
data Finds (now : ℕ) (key : Option Text) (longest : ℕ) (stats : List CandidateStats)
    (o : Option Text) : Type 0 where
  unselected :
      (before : List CandidateStats) (s : CandidateStats) (behind : List CandidateStats)
      → stats ≡ before ++ (s ∷ behind)
      → s.last_selected_at ≡ none
      → All WasSelected before
      → o ≡ some s.key
      → Finds now key longest stats o
  longest_ago :
      (before : List CandidateStats) (s : CandidateStats) (behind : List CandidateStats) (t : ℕ)
      → stats ≡ before ++ (s ∷ behind)
      → s.last_selected_at ≡ some t
      → forced_correction_threshold < now - t
      → longest < now - t
      → All (Less now (now - t)) before
      → All (AtMost now (now - t)) behind
      → o ≡ some s.key
      → Finds now key longest stats o
  kept : o ≡ key → All (Recent now longest) stats → Finds now key longest stats o

longest-over :
    (since longest : ℕ)
    → is_longest since longest ≡ true
    → (forced_correction_threshold < since) × (longest < since)
unfolding is_longest
longest-over since longest h = (ground (arith, h), ground (arith, h))

not_longest :
    (since longest : ℕ)
    → is_longest since longest ≡ false
    → (since ≤ forced_correction_threshold) ⊎ (since ≤ longest)
unfolding is_longest
not_longest since longest h = ground (arith, h)

Recent-AtMost :
    (now since : ℕ) (stats : List CandidateStats)
    → forced_correction_threshold < since
    → All (Recent now since) stats
    → All (AtMost now since) stats
Recent-AtMost now since [] h a = tt
Recent-AtMost now since (s ∷ stats) h ((t, e, inl k), a) =
    ((t, e, omega (arith, h, k)), Recent-AtMost now since stats h a)
Recent-AtMost now since (s ∷ stats) h ((t, e, inr k), a) =
    ((t, e, k), Recent-AtMost now since stats h a)

Recent-Less :
    (now longest since : ℕ) (s : CandidateStats)
    → Recent now longest s
    → forced_correction_threshold < since
    → longest < since
    → Less now since s
Recent-Less now longest since s (t, e, inl k) h l = (t, e, omega (arith, h, k))
Recent-Less now longest since s (t, e, inr k) h l = (t, e, omega (arith, l, k))

-- The loop goes on with the candidate as the longest ago.
Finds-takes :
    (now : ℕ) (key : Option Text) (longest : ℕ) (s : CandidateStats) (stats : List CandidateStats)
    (o : Option Text) (t : ℕ)
    → s.last_selected_at ≡ some t
    → is_longest (now - t) longest ≡ true
    → Finds now (some s.key) (now - t) stats o
    → Finds now key longest (s ∷ stats) o
Finds-takes now key longest s stats o t e c (unselected before s' behind same n a f) =
    unselected (s ∷ before) s' behind (ap (λ z. s ∷ z) same) n ((t, e), a) f
Finds-takes now key longest s stats o t e c (longest_ago before s' behind t' same n h l a b f) =
    let over = longest-over (now - t) longest c in
    longest_ago (s ∷ before) s' behind t' (ap (λ z. s ∷ z) same) n h (omega (arith, over.1, l))
      ((t, e, l), a) b f
Finds-takes now key longest s stats o t e c (kept f a) =
    let over = longest-over (now - t) longest c in
    longest_ago [] s stats t refl e over.0 over.1 tt (Recent-AtMost now (now - t) stats over.0 a) f

Finds-passes_by :
    (now : ℕ) (key : Option Text) (longest : ℕ) (s : CandidateStats) (stats : List CandidateStats)
    (o : Option Text)
    → Recent now longest s
    → Finds now key longest stats o
    → Finds now key longest (s ∷ stats) o
Finds-passes_by now key longest s stats o r (unselected before s' behind same n a f) =
    unselected (s ∷ before) s' behind (ap (λ z. s ∷ z) same) n ((r.0, r.1), a) f
Finds-passes_by now key longest s stats o r (longest_ago before s' behind t' same n h l a b f) =
    longest_ago (s ∷ before) s' behind t' (ap (λ z. s ∷ z) same) n h l
      (Recent-Less now longest (now - t') s r h l, a) b f
Finds-passes_by now key longest s stats o r (kept f a) = kept f (r, a)

find_correction-Finds :
    (now : ℕ) (key : Option Text) (longest : ℕ) (stats : List CandidateStats)
    → Finds now key longest stats (find_correction now key longest stats)
unfolding find_correction
find_correction-Finds now key longest [] = kept refl tt
find_correction-Finds now key longest (s ∷ stats) = elim (looks now key longest s stats) [
  | never e h ↦ unselected [] s stats refl e tt h
  | takes t e c h ↦ subst (Finds now key longest (s ∷ stats)) (sym h) (
      Finds-takes now key longest s stats _ t e c
        (find_correction-Finds now (some s.key) (now - t) stats))
  | passes_by t e c h ↦ subst (Finds now key longest (s ∷ stats)) (sym h) (
      Finds-passes_by now key longest s stats _ (t, e, not_longest (now - t) longest c)
        (find_correction-Finds now key longest stats))
]

-- What findCorrectionCandidate answers.
abbrev pub IsCorrection : ℕ → List CandidateStats → Option Text → Type 0
IsCorrection now stats none = All (λ s. IsOverdue now s → ⊥) stats
IsCorrection now stats (some key) =
    (before : List CandidateStats) × (s : CandidateStats) × (behind : List CandidateStats) × (stats
      ≡ before ++ (s ∷ behind))
    × (s.key ≡ key)
    × IsForced now before s behind

Recent-not_late : (now : ℕ) (s : CandidateStats) → Recent now 0 s → IsOverdue now s → ⊥
Recent-not_late now s (t, e, k) (inl n) = cc
Recent-not_late now s (t, e, k) (inr (t', e', l)) =
    let same : t ≡ t' = some-injective t t' (sym e ∙ e') in
    let long : forced_correction_threshold < now - t = rw same l in
    elim k [ inl j ↦ omega (arith, j, long) | inr j ↦ omega (arith, j, long) ]

not_late_all :
    (now : ℕ) (stats : List CandidateStats)
    → All (Recent now 0) stats
    → All (λ s. IsOverdue now s → ⊥) stats
not_late_all now [] a = tt
not_late_all now (s ∷ stats) a = (Recent-not_late now s a.0, not_late_all now stats a.1)

pub find_correction-IsCorrection :
    (now : ℕ) (stats : List CandidateStats)
    → IsCorrection now stats (find_correction now none 0 stats)
find_correction-IsCorrection now stats =
    answer (find_correction now none 0 stats) (find_correction-Finds now none 0 stats)
  where
    answer : (o : Option Text) → Finds now none 0 stats o → IsCorrection now stats o
    answer o (unselected before s behind same n a f) =
        subst (IsCorrection now stats) (sym f) (before, s, behind, same, refl, inl (n, a))
    answer o (longest_ago before s behind t same n h l a b f) =
        subst (IsCorrection now stats) (sym f) (before, s, behind, same, refl, inr (t, n, h, a, b))
    answer o (kept f a) = subst (IsCorrection now stats) (sym f) (not_late_all now stats a)

-- The first candidate of a key has been moved to the front, and nothing else.
abbrev pub Moves : Text → List CandidateScore → CandidateScore → List CandidateScore → Type 0
Moves key scores a rest =
    (before : List CandidateScore) × (behind : List CandidateScore) × (scores
      ≡ before ++ (a ∷ behind))
    × (a.stats.key ≡ key)
    × All (λ b. b.stats.key ≢ key) before
    × (rest ≡ before ++ behind)

none-some : {p : CandidateScore × List CandidateScore} → none ≡ some p → ⊥
none-some e = cc

other_key : (s key : Text) → text_eq s key ≡ false → s ≢ key
other_key s key e same = not_both (text_eq s key) ((text_eq_iff s key).1 same) e

pub move_first-Moves :
    (key : Text) (scores : List CandidateScore) (p : CandidateScore × List CandidateScore)
    → move_first key scores ≡ some p
    → Moves key scores p.0 p.1
unfolding move_first
move_first-Moves key [] p h = cc
move_first-Moves key (a ∷ rest) p h = elim (Bool-cases (text_eq a.stats.key key)) [
  | inl e ↦
      subst (λ q. Moves key (a ∷ rest) q.0 q.1) (some-injective (a, rest) p (rw e at h))
        ([], rest, refl, (text_eq_iff a.stats.key key).0 e, tt, refl)
  | inr e ↦ elim (Option-cases (move_first key rest)) [
    | inl n ↦ absurd (none-some (rw (e, n) at h))
    | inr (q, m) ↦
        let (before, behind, same, its, others, left) = move_first-Moves key rest q m in
        subst (λ q. Moves key (a ∷ rest) q.0 q.1) (some-injective (q.0, a ∷ q.1) p (rw (e, m) at h))
          (
            a ∷ before,
            behind,
            ap (λ z. a ∷ z) same,
            its,
            (other_key a.stats.key key e, others),
            ap (λ z. a ∷ z) left,
          )
  ]
]

-- A key that is there is found.
pub move_first-found :
    (key : Text) (scores : List CandidateScore)
    → Some (λ a. a.stats.key ≡ key) scores
    → (p : CandidateScore × List CandidateScore) × (move_first key scores ≡ some p)
unfolding move_first
move_first-found key [] s = absurd s
move_first-found key (a ∷ rest) s = elim (Bool-cases (text_eq a.stats.key key)) [
  | inl e ↦ ((a, rest), rw e refl)
  | inr e ↦ elim s [
    | inl same ↦
        absurd (not_both (text_eq a.stats.key key) ((text_eq_iff a.stats.key key).1 same) e)
    | inr later ↦ let (q, m) = move_first-found key rest later in ((q.0, a ∷ q.1), rw (e, m) refl)
  ]
]
