-- ===== src/Scheduler/Selector.antt =====
-- internal/scheduler/selector.go: the weighted random choice among the candidates. A pointer into
-- the items is an index, and `rand` is the random source, which is asked for a number below its
-- argument.
pub mod Weights
use oh_my_api.Base.{
  ℕ, zero, suc, ◌+◌, ◌-◌, max, Bool, true, false, not, Option, none, some, List, [], ◌∷◌, leb, ◌==◌,
  if◌then◌else◌, Text, text_eq, ℤ, pos, leb_ℤ, pos_part, length, erase_idx, get_elem?, keep, map,
}
use oh_my_api.Health.{make_health_key}
use oh_my_api.Scheduler.Types.{Task}

pub record SelectorItem : Type 0 where
  pub task : Task
  pub weight : ℕ

pub record WeightedSelector : Type 0 where
  pub items : List SelectorItem
  pub total : ℕ

unfoldable pub item_of : Task → SelectorItem
item_of t = record { task = t; weight = if leb_ℤ t.weight (pos 0) then 1 else pos_part t.weight }

unfoldable pub sum_weights : List SelectorItem → ℕ
sum_weights [] = 0
sum_weights (x ∷ xs) = x.weight + sum_weights xs

-- newWeightedSelector
unfoldable pub new_weighted_selector : List Task → WeightedSelector
unfolding item_of sum_weights
new_weighted_selector tasks =
    let items = map item_of tasks in record { items = items; total = sum_weights items }

-- The loop of Select from the index `i` on, with the last index where it runs out.
unfoldable pub select_from : ℕ → ℕ → ℕ → List SelectorItem → ℕ
select_from target cumulative i [] = i - 1
select_from target cumulative i (x ∷ xs) =
    let rest = select_from target (cumulative + x.weight) (suc i) xs in
    if leb target (cumulative + x.weight) then i else rest

abbrev pub no_items : List SelectorItem → Bool
no_items [] = true
no_items (x ∷ xs) = false

unfoldable pub is_empty : WeightedSelector → Bool
is_empty s = no_items s.items

unfoldable pub select : (ℕ → ℕ) → WeightedSelector → Option ℕ
unfolding select_from
select rand s =
    if no_items s.items
    then none
    else if leb s.total 0
    then some 0
    else some (select_from (rand s.total + 1) 0 0 s.items)

abbrev pub weight_at : Option SelectorItem → ℕ
weight_at none = 0
weight_at (some x) = x.weight

-- removeAt. The total is at least the weight that is taken off.
unfoldable pub remove_at : ℕ → WeightedSelector → WeightedSelector
remove_at i s = record {
  items = erase_idx s.items i;
  total = s.total - weight_at (get_elem? s.items i);
}

abbrev pub index_of : Text → ℕ → List SelectorItem → Option ℕ
index_of name i [] = none
index_of name i (x ∷ xs) =
    let rest = index_of name (suc i) xs in
    if text_eq x.task.provider_name name then some i else rest

-- Remove: the first item of the provider.
unfoldable pub remove : Text → WeightedSelector → WeightedSelector
unfolding remove_at
remove name s = elim (index_of name 0 s.items) [ none ↦ s | some i ↦ remove_at i s ]

-- RemoveTask, of the item that the pointer is to.
unfoldable pub remove_task : Option ℕ → WeightedSelector → WeightedSelector
unfolding remove_at
remove_task none s = s
remove_task (some i) s = remove_at i s

abbrev pub has_key : Text → SelectorItem → Bool
has_key key x = text_eq (make_health_key x.task.provider_name x.task.outbound_protocol) key

unfoldable pub remove_by_health_key : Text → WeightedSelector → WeightedSelector
unfolding sum_weights
remove_by_health_key key s =
    if text_eq key []
    then s
    else (let filtered = keep (λ x. not (has_key key x)) s.items in
        record { items = filtered; total = sum_weights filtered })
