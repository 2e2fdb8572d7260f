-- ===== src/Scheduler/Sticky.antt =====
-- internal/scheduler/sticky.go: StickyStore, which candidate an affinity key sticks to and how often
-- each candidate of a group succeeded, and the choice between them. Times are nanoseconds, and
-- `last_prune` starts as the zero time, long ago. The scores are fractions compared exactly: they
-- order like the code's float64 quotients as long as counts and weights stay below 2^26.
pub mod Pruning
pub mod Affinity
pub mod Deficit
use oh_my_api.Base.{
  ℕ, ◌+◌, ◌-◌, ◌*◌, Bool, true, false, not, ◌&&◌, ◌||◌, Option, none, some, List, [], ◌∷◌, ◌++◌,
  leb, ltb, ◌==◌, if◌then◌else◌, Text, text_eq, any, Map, lookup, insert, delete, lookup_or_zero, ℤ,
  pos, leb_ℤ, pos_part,
}

pub record StickyRecord : Type 0 where
  pub candidate : Text
  pub expires_at : ℕ

pub record StickyStore : Type 0 where
  pub stickies : Map StickyRecord
  pub success_cnt : Map (Map ℕ)
  pub last_prune : ℕ

-- NewStickyStore
unfoldable pub new_sticky_store : StickyStore
new_sticky_store = record { stickies = []; success_cnt = []; last_prune = 0 }

abbrev pub sticky_prune_interval : ℕ
sticky_prune_interval = 60000000000

unfoldable pub drop_expired : ℕ → Map StickyRecord → Map StickyRecord
drop_expired now [] = []
drop_expired now ((k, r) ∷ m) =
    let rest = drop_expired now m in if ltb now r.expires_at then (k, r) ∷ rest else rest

-- pruneExpiredLocked
unfoldable pub prune_expired : ℕ → StickyStore → StickyStore
unfolding drop_expired
prune_expired now s =
    if ltb (now - s.last_prune) sticky_prune_interval
    then s
    else record s { stickies = drop_expired now s.stickies; last_prune = now }

-- Lookup
unfoldable pub look_up : Text → ℕ → StickyStore → Option Text × StickyStore
unfolding prune_expired
look_up affinity now store =
    let s = prune_expired now store in
    elim (lookup affinity s.stickies) [
      | none ↦ (none, s)
      | some r ↦
          if ltb now r.expires_at
          then (some r.candidate, s)
          else (none, record s { stickies = delete affinity s.stickies })
    ]

-- Remember
unfoldable pub remember : Text → Text → ℕ → ℕ → StickyStore → StickyStore
unfolding prune_expired
remember affinity candidate now idle_timeout store =
    let s = prune_expired now store in
    let r : StickyRecord = record { candidate = candidate; expires_at = now + idle_timeout } in
    record s { stickies = insert affinity r s.stickies }

abbrev or_empty : Option (Map ℕ) → Map ℕ
or_empty none = []
or_empty (some m) = m

-- successCnt[group], which is empty where it is missing. GetSuccessCounts hands out a copy of it.
unfoldable pub get_success_counts : Text → StickyStore → Map ℕ
get_success_counts group s = or_empty (lookup group s.success_cnt)

-- IncrSuccess
unfoldable pub incr_success : Text → Text → StickyStore → StickyStore
unfolding get_success_counts
incr_success group candidate s =
    let counts = get_success_counts group s in
    let counted = insert candidate (lookup_or_zero candidate counts + 1) counts in
    record s { success_cnt = insert group counted s.success_cnt }

-- effectiveWeight
unfoldable pub effective_weight : ℤ → ℕ
effective_weight w = if leb_ℤ w (pos 0) then 1 else pos_part w

abbrev pub weight_in : Option ℤ → ℤ
weight_in none = pos 0
weight_in (some w) = w

unfoldable pub weight_of : Map ℤ → Text → ℕ
unfolding effective_weight
weight_of weights c = effective_weight (weight_in (lookup c weights))

-- The test of PickDeficit's loop: whether `c` comes before the best one so far, by a smaller
-- quotient of count and weight, or an equal one and a larger weight.
unfoldable pub beats : Map ℕ → Map ℤ → Text → Text → Bool
unfolding weight_of lookup_or_zero
beats counts weights c best =
    let left = lookup_or_zero c counts * weight_of weights best in
    let right = lookup_or_zero best counts * weight_of weights c in
    ltb left right || ((left == right) && ltb (weight_of weights best) (weight_of weights c))

unfoldable pub best_of : Map ℕ → Map ℤ → Text → List Text → Text
unfolding beats
best_of counts weights best [] = best
best_of counts weights best (c ∷ cs) =
    best_of counts weights (if beats counts weights c best then c else best) cs

-- PickDeficit
unfoldable pub pick_deficit : Text → List Text → Map ℤ → StickyStore → Text
unfolding best_of get_success_counts
pick_deficit group [] weights s = []
pick_deficit group (c ∷ cs) weights s = best_of (get_success_counts group s) weights c cs

-- affinityKey
unfoldable pub affinity_key : Text → Text → Text
affinity_key key_name group_name = key_name ++ (0 ∷ group_name)

-- pickStickyOrDeficit, with sticky enabled or not.
unfoldable pub pick_sticky_or_deficit :
    Text → Text → Bool → ℕ → List Text → Map ℤ → StickyStore → Text × StickyStore
pick_sticky_or_deficit group key_name enabled now [] weights s = ([], s)
pick_sticky_or_deficit group key_name enabled now (c ∷ cs) weights s =
    let remaining = c ∷ cs in
    if enabled && not (text_eq key_name [])
    then (let (found, s1) = look_up (affinity_key key_name group) now s in
        elim found [
          | none ↦ (pick_deficit group remaining weights s1, s1)
          | some cand ↦
              if any (λ r. text_eq r cand) remaining
              then (cand, s1)
              else (pick_deficit group remaining weights s1, s1)
        ])
    else (pick_deficit group remaining weights s, s)

-- recordStickySuccess
unfoldable pub record_sticky_success : Text → Text → Text → ℕ → ℕ → StickyStore → StickyStore
record_sticky_success group key_name candidate idle_timeout now s =
    if text_eq candidate []
    then s
    else (let s1 = incr_success group candidate s in
        if text_eq key_name []
        then s1
        else remember (affinity_key key_name group) candidate now idle_timeout s1)
