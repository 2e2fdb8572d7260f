-- ===== src/Examples/Scheduler/Choice.antt =====
-- Sticky sessions (sticky.go) at work.
use oh_my_api.Base.{
  ◌≡◌, refl, true, [], ◌∷◌, arith, Text, txt, text_eq, All, Some, Map, lookup, ℤ, pos,
}
use oh_my_api.Scheduler.Sticky.{
  StickyStore, pick_deficit, pick_sticky_or_deficit, record_sticky_success, get_success_counts,
}
use oh_my_api.Scheduler.Sticky.Pruning.{HasOnce}
use oh_my_api.Scheduler.Sticky.Affinity.{record_sticky_success-pick}
use oh_my_api.Scheduler.Sticky.Deficit.{NoMore, pick_deficit-least}

abbrev a : Text
a = txt "a/m"

abbrev b : Text
b = txt "b/m"

abbrev weights : Map ℤ
weights = (a, pos 1) ∷ (b, pos 3) ∷ []

abbrev store : StickyStore
store = record {
  stickies = (txt "key", record { candidate = b; expires_at = 90 }) ∷ [];
  success_cnt = (txt "group", (a, 1) ∷ (b, 2) ∷ []) ∷ [];
  last_prune = 0;
}

store_once : HasOnce store.stickies
unfolding lookup
store_once = (refl, tt)

record_sticky_success-pick_example :
    let s' = record_sticky_success (txt "group") (txt "key") a 20 50 store in
    (pick_sticky_or_deficit (txt "group") (txt "key") true 60 (b ∷ a ∷ []) weights s').0 ≡ a
record_sticky_success-pick_example =
    record_sticky_success-pick (txt "group") (txt "key") a 20 50 60 b (a ∷ []) weights store
      store_once (ground arith) (ground arith) (omega arith) (omega arith) (unfold text_eq in refl)

pick_deficit-least_example :
    let picked = pick_deficit (txt "group") (a ∷ b ∷ []) weights store in
    Some (λ d. picked ≡ d) (a ∷ b ∷ [])
    × All (λ d. NoMore (get_success_counts (txt "group") store) weights picked d) (a ∷ b ∷ [])
pick_deficit-least_example = pick_deficit-least (txt "group") a (b ∷ []) weights store
