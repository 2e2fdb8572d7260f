-- ===== src/Scheduler/Windows.antt =====
-- internal/scheduler/strategy.go: which candidates the time ranges exclude at a minute of the day.
use oh_my_api.Base.{
  ℕ, ◌≡◌, refl, ◌⊎◌, inl, inr, Bool, true, false, not, ◌&&◌, Option, none, some, List, [], ◌∷◌,
  ◌++◌, arith, if◌then◌else◌, all, Text, ap, ◌∙◌,
}
use oh_my_api.Config.TimeRange.{DisabledTimeRange, parse_time_range, is_in_disabled_time_range}
use oh_my_api.Config.Rules.{has_items}
use oh_my_api.Scheduler.Types.{Task}

-- parseTaskTimeRanges
unfoldable pub parse_task_time_ranges : List Text → Option (List DisabledTimeRange)
parse_task_time_ranges [] = some []
parse_task_time_ranges (raw ∷ raws) = elim (parse_time_range raw) [
  | none ↦ none
  | some r ↦ elim (parse_task_time_ranges raws) [ none ↦ none | some rs ↦ some (r ∷ rs) ]
]

-- Whether a non-empty list of ranges excludes: one that does not parse always does.
abbrev pub excludes : Bool → ℕ → Option (List DisabledTimeRange) → Bool
excludes inside minute none = true
excludes true minute (some rs) = is_in_disabled_time_range minute rs
excludes false minute (some rs) = not (is_in_disabled_time_range minute rs)

-- isProviderDisabledAt
unfoldable pub is_provider_disabled_at : Task → ℕ → Bool
is_provider_disabled_at task minute =
    if has_items task.disable_time_range
      && excludes true minute (parse_task_time_ranges task.disable_time_range)
    then true
    else (has_items task.enable_time_range
        && excludes false minute (parse_task_time_ranges task.enable_time_range))

-- allProvidersDisabled
unfoldable pub all_providers_disabled : List Task → ℕ → Bool
unfolding is_provider_disabled_at
all_providers_disabled tasks minute =
    has_tasks tasks && all (λ t. is_provider_disabled_at t minute) tasks
  where
    has_tasks : List Task → Bool
    has_tasks [] = false
    has_tasks (t ∷ ts) = true

parse-unparsable :
    (before after : List Text) (raw : Text)
    → parse_time_range raw ≡ none
    → parse_task_time_ranges (before ++ (raw ∷ after)) ≡ none
unfolding parse_task_time_ranges
parse-unparsable [] after raw h = rw (h, parse_task_time_ranges)
parse-unparsable (b ∷ before) after raw h = ground (arith, parse-unparsable before after raw h)

has_items-middle :
    (before after : List Text) (raw : Text) → has_items (before ++ (raw ∷ after)) ≡ true
has_items-middle [] after raw = refl
has_items-middle (b ∷ before) after raw = refl

-- A range that does not parse, in either list, makes the candidate unschedulable at every minute.
pub is_provider_disabled_at_unparsable :
    (task : Task) (minute : ℕ) (before after : List Text) (raw : Text)
    → parse_time_range raw ≡ none
    → (task.disable_time_range ≡ before ++ (raw ∷ after))
      ⊎ (task.enable_time_range ≡ before ++ (raw ∷ after))
    → is_provider_disabled_at task minute ≡ true
unfolding is_provider_disabled_at
is_provider_disabled_at_unparsable task minute before after raw h (inl e) =
    let p = ap parse_task_time_ranges e ∙ parse-unparsable before after raw h in
    let q = ap has_items e ∙ has_items-middle before after raw in rw (q, p)
is_provider_disabled_at_unparsable task minute before after raw h (inr e) =
    let p = ap parse_task_time_ranges e ∙ parse-unparsable before after raw h in
    let q = ap has_items e ∙ has_items-middle before after raw in ground (arith, p, q)
