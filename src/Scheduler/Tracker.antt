-- ===== src/Scheduler/Tracker.antt =====
-- internal/scheduler/adaptive_tracker.go and adaptive_score.go: the latency windows of the candidates
-- and their ranking. Latencies are nanoseconds; a score is the exact fraction of which the code
-- computes a float64. The standard deviation, which only logs read, is left out. The zero time is
-- `none`.
pub mod Correction
pub mod Sorting
pub mod Windows
pub mod Ranking
use oh_my_api.Base.{
  ℕ, zero, suc, ◌+◌, ◌-◌, ◌*◌, ◌/◌, min, Bool, true, false, Option, none, some, List, [], ◌∷◌, ◌++◌,
  map, keep, length, ltb, ◌==◌, ◌&&◌, if◌then◌else◌, Text, text_eq, Map, lookup, insert,
}

pub record TtftSample : Type 0 where
  pub ttft : ℕ
  pub timestamp : ℕ

pub record CandidateWindow : Type 0 where
  pub samples : List TtftSample
  pub last_selected_at : Option ℕ

-- The windows of LatencyTracker.
abbrev pub LatencyTracker : Type 0
LatencyTracker = Map CandidateWindow

abbrev pub sample_window_size : ℕ
sample_window_size = 20

-- 30 minutes
abbrev pub sample_expiry_duration : ℕ
sample_expiry_duration = 1800000000000

-- The slice expression `xs[n:]`.
abbrev pub drop {ℓ} : {A : Type ℓ} → ℕ → List A → List A
drop zero xs = xs
drop (suc n) [] = []
drop (suc n) (x ∷ xs) = drop n xs

-- ensureWindow: the window of a key, which is a new one if there is none.
unfoldable pub ensure_window : Text → LatencyTracker → CandidateWindow
ensure_window key t = elim (lookup key t) [
  | some w ↦ w
  | none ↦ record { samples = []; last_selected_at = none }
]

-- What RecordSuccess keeps of the samples.
unfoldable pub trim_samples : List TtftSample → List TtftSample
trim_samples samples =
    if ltb sample_window_size (length samples)
    then drop (length samples - sample_window_size) samples
    else samples

-- RecordSuccess
unfoldable pub record_success : Text → TtftSample → LatencyTracker → LatencyTracker
record_success key sample t =
    let w = ensure_window key t in
    insert key (record w { samples = trim_samples (w.samples ++ (sample ∷ [])) }) t

-- RecordSelection
unfoldable pub record_selection : Text → ℕ → LatencyTracker → LatencyTracker
record_selection key now t =
    insert key (record (ensure_window key t) { last_selected_at = some now }) t

-- filterValidSamples
unfoldable pub filter_valid_samples : ℕ → List TtftSample → List TtftSample
filter_valid_samples now samples =
    keep (λ s. ltb now (s.timestamp + sample_expiry_duration)) samples

-- `total` over `sample_count` is MeanTTFT.
pub record CandidateStats : Type 0 where
  pub key : Text
  pub total : ℕ
  pub sample_count : ℕ
  pub last_success_at : Option ℕ
  pub last_selected_at : Option ℕ

abbrev pub total_of : List TtftSample → ℕ
total_of [] = 0
total_of (s ∷ samples) = s.ttft + total_of samples

abbrev pub last_time : List TtftSample → Option ℕ
last_time [] = none
last_time (s ∷ []) = some s.timestamp
last_time (s ∷ s' ∷ samples) = last_time (s' ∷ samples)

abbrev pub stats_of : Text → List TtftSample → Option ℕ → CandidateStats
stats_of key valid selected = record {
  key = key;
  total = total_of valid;
  sample_count = length valid;
  last_success_at = last_time valid;
  last_selected_at = selected;
}

-- GetStats, for one key.
unfoldable pub stats_at : LatencyTracker → ℕ → Text → CandidateStats
stats_at t now key = elim (lookup key t) [
  | none ↦ stats_of key [] none
  | some w ↦ stats_of key (filter_valid_samples now w.samples) w.last_selected_at
]

-- GetStats
unfoldable pub get_stats : List Text → ℕ → LatencyTracker → List CandidateStats
get_stats keys now t = map (stats_at t now) keys

-- A score as a fraction.
pub record Score : Type 0 where
  pub numerator : ℕ
  pub denominator : ℕ

-- 1 ms
abbrev pub millisecond : ℕ
millisecond = 1000000

-- The penalty for the age of the last success, 15 ms a minute.
abbrev pub stale_penalty : Option ℕ → ℕ → ℕ
stale_penalty none now = 0
stale_penalty (some at_time) now = min 300 (15 * ((now - at_time) / 60000000000)) * millisecond

abbrev pub score_with : (samples total stale : ℕ) → Score
score_with zero total stale = record { numerator = 2000 * millisecond; denominator = 1 }
score_with (suc n) total stale = record {
  numerator = total + (300 * millisecond / min (suc n) 5 + stale) * suc n;
  denominator = suc n;
}

-- computeScore
unfoldable pub compute_score : CandidateStats → ℕ → Score
compute_score s now = score_with s.sample_count s.total (stale_penalty s.last_success_at now)

pub record CandidateScore : Type 0 where
  pub score : Score
  pub stats : CandidateStats

-- The order of Go's strings.
unfoldable pub text_before : Text → Text → Bool
text_before s [] = false
text_before [] (c ∷ t) = true
text_before (b ∷ s) (c ∷ t) = if b == c then text_before s t else ltb b c

-- The order that the candidates are sorted by.
unfoldable pub score_before : CandidateScore → CandidateScore → Bool
score_before a b =
    let x = a.score.numerator * b.score.denominator in
    let y = b.score.numerator * a.score.denominator in
    if x == y then text_before a.stats.key b.stats.key else ltb x y

-- A stable sort.
unfoldable pub insert_sorted : CandidateScore → List CandidateScore → List CandidateScore
insert_sorted a [] = a ∷ []
insert_sorted a (b ∷ bs) = if score_before b a then b ∷ insert_sorted a bs else a ∷ b ∷ bs

unfoldable pub sort_scores : List CandidateScore → List CandidateScore
sort_scores [] = []
sort_scores (a ∷ rest) = insert_sorted a (sort_scores rest)

-- forcedCorrectionThreshold
abbrev pub forced_correction_threshold : ℕ
forced_correction_threshold = 1800000000000

-- The condition of findCorrectionCandidate on the time since a candidate was selected.
unfoldable pub is_longest : ℕ → ℕ → Bool
is_longest since longest = ltb forced_correction_threshold since && ltb longest since

-- The loop of findCorrectionCandidate, before a candidate that was never selected is found: its key
-- is the answer then.
unfoldable pub find_correction : ℕ → Option Text → (longest : ℕ) → List CandidateStats → Option Text
find_correction now key longest [] = key
find_correction now key longest (s ∷ stats) = elim s.last_selected_at [
  | none ↦ some s.key
  | some at_time ↦ elim (is_longest (now - at_time) longest) [
    | true ↦ find_correction now (some s.key) (now - at_time) stats
    | false ↦ find_correction now key longest stats
  ]
]

-- findCorrectionCandidate; the empty key of the source is `none`.
unfoldable pub find_correction_candidate : ℕ → List CandidateStats → Option Text
find_correction_candidate now stats = find_correction now none 0 stats

-- The candidate of a key, moved to the front.
unfoldable pub move_first :
    Text → List CandidateScore → Option (CandidateScore × List CandidateScore)
move_first key [] = none
move_first key (a ∷ rest) =
    let later = move_first key rest in
    if text_eq a.stats.key key
    then some (a, rest)
    else elim later [ none ↦ none | some p ↦ some (p.0, a ∷ p.1) ]

unfoldable pub promoted : Option Text → List CandidateScore → List CandidateScore
promoted none scores = scores
promoted (some key) scores = elim (move_first key scores) [ none ↦ scores | some p ↦ p.0 ∷ p.1 ]

-- RankCandidates
unfoldable pub rank_candidates : List CandidateStats → ℕ → List CandidateScore
rank_candidates stats now =
    promoted (find_correction_candidate now stats)
      (sort_scores (map (λ s. record { score = compute_score s now; stats = s }) stats))
