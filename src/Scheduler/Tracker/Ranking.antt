-- ===== src/Scheduler/Tracker/Ranking.antt =====
-- The order in which the adaptive strategy ranks its candidates.
use mathlib.Core.List.{Perm}
use oh_my_api.Base.{
  ℕ, ◌≡◌, refl, sym, subst, ◌⊎◌, inl, inr, Option, none, some, List, [], ◌∷◌, ◌++◌, map, Text, Some,
  All,
}
use oh_my_api.Scheduler.Tracker.{
  CandidateStats, CandidateScore, compute_score, sort_scores, find_correction_candidate, move_first,
  promoted, rank_candidates,
}
use oh_my_api.Scheduler.Tracker.Sorting.{
  sort_scores-Perm, InOrder, sort_scores-InOrder, sort_scores-Some,
}
use oh_my_api.Scheduler.Tracker.Correction.{
  IsOverdue, IsCorrection, find_correction-IsCorrection, Moves, move_first-Moves, move_first-found,
}

abbrev pub scored : ℕ → CandidateStats → CandidateScore
scored now s = record { score = compute_score s now; stats = s }

split-Some :
    (now : ℕ) (before : List CandidateStats) (s : CandidateStats) (behind : List CandidateStats)
    → Some (λ a. a.stats.key ≡ s.key) (map (scored now) (before ++ (s ∷ behind)))
split-Some now [] s behind = inl refl
split-Some now (x ∷ before) s behind = inr (split-Some now before s behind)

-- A candidate of the key of the forced one is moved to the front of a list.
abbrev pub IsPromoted : ℕ → List CandidateStats → List CandidateScore → List CandidateScore → Type 0
IsPromoted now stats sorted out =
    (key : Text) × IsCorrection now stats (some key)
    × (a : CandidateScore) × (rest : List CandidateScore) × (out ≡ a ∷ rest)
    × Moves key sorted a rest

-- A ranking: the sorted candidates, when none is overdue; else with the forced one moved.
abbrev pub IsRanked : ℕ → List CandidateStats → List CandidateScore → Type 0
IsRanked now stats out =
    (sorted : List CandidateScore) × Perm sorted (map (scored now) stats)
    × InOrder sorted
    × ((All (λ s. IsOverdue now s → ⊥) stats × (out ≡ sorted)) ⊎ IsPromoted now stats sorted out)

promoted-moved :
    (key : Text) (scores : List CandidateScore) (p : CandidateScore × List CandidateScore)
    → move_first key scores ≡ some p
    → promoted (some key) scores ≡ p.0 ∷ p.1
unfolding promoted
promoted-moved key scores p m = rw (m, promoted) refl

promotion :
    (now : ℕ) (stats : List CandidateStats) (o : Option Text)
    → IsCorrection now stats o
    → let sorted = sort_scores (map (scored now) stats) in
      (All (λ s. IsOverdue now s → ⊥) stats × (promoted o sorted ≡ sorted))
      ⊎ IsPromoted now stats sorted (promoted o sorted)
unfolding promoted
promotion now stats none c = inl (c, refl)
promotion now stats (some key) c =
    let (before, s, behind, same, its, forced) = c in
    let scores = map (scored now) stats in
    let there : Some (λ a. a.stats.key ≡ key) scores =
      subst (λ k. Some (λ a. a.stats.key ≡ k) scores) its
        (subst (λ z. Some (λ a. a.stats.key ≡ s.key) (map (scored now) z)) (sym same)
          (split-Some now before s behind)) in
    let (p, m) =
      move_first-found key (sort_scores scores)
        (sort_scores-Some (λ a. a.stats.key ≡ key) scores there) in
    inr (
      key,
      c,
      p.0,
      p.1,
      promoted-moved key (sort_scores scores) p m,
      move_first-Moves key (sort_scores scores) p m,
    )

-- The ranking is a list of all candidates in which each has a lower score than the one directly behind
-- it, or the same one and a key that is not later; with one change when a candidate is overdue
-- (never selected, or not for more than 30 minutes). Then the first of that list with the key of the
-- forced candidate is moved to the front: the first candidate that was never selected, or, when all
-- were, the first of those whose selection is longest ago.
pub rank_candidates-IsRanked :
    (stats : List CandidateStats) (now : ℕ) → IsRanked now stats (rank_candidates stats now)
unfolding rank_candidates find_correction_candidate
rank_candidates-IsRanked stats now = (
  sort_scores (map (scored now) stats),
  sort_scores-Perm (map (scored now) stats),
  sort_scores-InOrder (map (scored now) stats),
  promotion now stats (find_correction_candidate now stats)
      (find_correction-IsCorrection now stats),
)
