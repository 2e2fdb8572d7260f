-- ===== src/Scheduler/Selector/Weights.antt =====
-- The weights of the selector, and whom a random number selects.
use oh_my_api.Base.{
  ℕ, zero, suc, ◌+◌, ◌≤◌, ◌<◌, ◌≡◌, refl, subst, ◌∙◌, ap, inl, inr, Bool, false, not, Option, none,
  some, List, [], ◌∷◌, ◌++◌, arith, leb, Option-cases, Bool-cases, Text, text_eq, length, erase_idx,
  get_elem?, keep, All, map,
}
use oh_my_api.Scheduler.Types.{Task}
use oh_my_api.Scheduler.Selector.{
  SelectorItem, WeightedSelector, item_of, sum_weights, new_weighted_selector, select_from, select,
  remove_at, remove, remove_task, remove_by_health_key, has_key, weight_at, index_of, no_items,
}

-- Every weight counts, and the total is their sum.
pub record IsBalanced (s : WeightedSelector) : Type 0 where
  pub positive : All (λ x. 1 ≤ x.weight) s.items
  pub summed : s.total ≡ sum_weights s.items

item_of-weight : (t : Task) → 1 ≤ (item_of t).weight
unfolding item_of
item_of-weight t = ground arith

items_of-positive : (tasks : List Task) → All (λ x. 1 ≤ x.weight) (map item_of tasks)
items_of-positive [] = tt
items_of-positive (t ∷ ts) = (item_of-weight t, items_of-positive ts)

pub new_weighted_selector-IsBalanced :
    (tasks : List Task) → IsBalanced (new_weighted_selector tasks)
unfolding new_weighted_selector
new_weighted_selector-IsBalanced tasks = record {
  positive = items_of-positive tasks;
  summed = refl;
}

erase-positive :
    (i : ℕ) (xs : List SelectorItem)
    → All (λ x. 1 ≤ x.weight) xs
    → All (λ x. 1 ≤ x.weight) (erase_idx xs i)
erase-positive i [] h = tt
erase-positive zero (x ∷ xs) h = h.1
erase-positive (suc i) (x ∷ xs) h = (h.0, erase-positive i xs h.1)

-- An item that is taken out takes its weight along.
erase-sum_weights :
    (i : ℕ) (xs : List SelectorItem)
    → sum_weights (erase_idx xs i) + weight_at (get_elem? xs i) ≡ sum_weights xs
unfolding sum_weights
erase-sum_weights i [] = refl
erase-sum_weights zero (x ∷ xs) = omega arith
erase-sum_weights (suc i) (x ∷ xs) = omega (arith, erase-sum_weights i xs)

remove_at-IsBalanced : (i : ℕ) (s : WeightedSelector) → IsBalanced s → IsBalanced (remove_at i s)
unfolding remove_at
remove_at-IsBalanced i s h = record {
  positive = erase-positive i s.items h.positive;
  summed = omega (arith, h.summed, erase-sum_weights i s.items);
}

keep-positive :
    (p : SelectorItem → Bool) (xs : List SelectorItem)
    → All (λ x. 1 ≤ x.weight) xs
    → All (λ x. 1 ≤ x.weight) (keep p xs)
keep-positive p [] h = tt
keep-positive p (x ∷ xs) h = ground (arith, keep-positive p xs)

remove_by_health_key-IsBalanced :
    (key : Text) (s : WeightedSelector) → IsBalanced s → IsBalanced (remove_by_health_key key s)
unfolding remove_by_health_key
remove_by_health_key-IsBalanced key s h = elim (Bool-cases (text_eq key [])) [
  | inl e ↦ rw (e, remove_by_health_key) h
  | inr e ↦
      rw (e, remove_by_health_key)
        record {
          positive = keep-positive (λ x. not (has_key key x)) s.items h.positive;
          summed = refl;
        }
]

remove-IsBalanced : (name : Text) (s : WeightedSelector) → IsBalanced s → IsBalanced (remove name s)
unfolding remove
remove-IsBalanced name s h = elim (Option-cases (index_of name 0 s.items)) [
  | inl e ↦ rw (e, remove) h
  | inr (i, e) ↦ rw (e, remove) (remove_at-IsBalanced i s h)
]

remove_task-IsBalanced :
    (o : Option ℕ) (s : WeightedSelector) → IsBalanced s → IsBalanced (remove_task o s)
unfolding remove_task
remove_task-IsBalanced none s h = h
remove_task-IsBalanced (some i) s h = remove_at-IsBalanced i s h

-- Whatever is removed, by provider, by pointer or by health key, the weights stay positive and the
-- total stays their sum.
pub removals-IsBalanced :
    (s : WeightedSelector) (name key : Text) (o : Option ℕ)
    → IsBalanced s
    → IsBalanced (remove name s)
      × IsBalanced (remove_task o s)
      × IsBalanced (remove_by_health_key key s)
removals-IsBalanced s name key o h = (
  remove-IsBalanced name s h,
  remove_task-IsBalanced o s h,
  remove_by_health_key-IsBalanced key s h,
)

sum_weights-append :
    (xs ys : List SelectorItem) → sum_weights (xs ++ ys) ≡ sum_weights xs + sum_weights ys
unfolding sum_weights
sum_weights-append [] ys = omega arith
sum_weights-append (x ∷ xs) ys = omega (arith, sum_weights-append xs ys)

select_from-hit :
    (before : List SelectorItem) (x : SelectorItem) (after : List SelectorItem) (t c i : ℕ)
    → All (λ y. 1 ≤ y.weight) before
    → c + sum_weights before < t
    → t ≤ c + sum_weights before + x.weight
    → select_from t c i (before ++ (x ∷ after)) ≡ i + length before
unfolding select_from sum_weights
select_from-hit [] x after t c i p lo hi = ground arith
select_from-hit (y ∷ before) x after t c i p lo hi =
    ground (
      arith,
      select_from-hit before x after t (c + y.weight) (suc i) p.1 (omega arith) (omega arith),
    )

has_items-middle :
    (before after : List SelectorItem) (x : SelectorItem) → no_items (before ++ (x ∷ after)) ≡ false
has_items-middle [] after x = refl
has_items-middle (y ∷ before) after x = refl

split-positive :
    (before : List SelectorItem) (x : SelectorItem) (after : List SelectorItem)
    → All (λ y. 1 ≤ y.weight) (before ++ (x ∷ after))
    → All (λ y. 1 ≤ y.weight) before × (1 ≤ x.weight)
split-positive [] x after h = (tt, h.0)
split-positive (y ∷ before) x after h =
    let (p, q) = split-positive before x after h.1 in ((h.0, p), q)

-- In a balanced selector an item is selected by as many of the random numbers below the total as
-- its weight: by those from the sum of the weights before it on.
pub select-weight :
    (before : List SelectorItem) (x : SelectorItem) (after : List SelectorItem) (rand : ℕ → ℕ)
    (s : WeightedSelector)
    → IsBalanced s
    → s.items ≡ before ++ (x ∷ after)
    → sum_weights before ≤ rand s.total
    → rand s.total < sum_weights before + x.weight
    → select rand s ≡ some (length before)
unfolding select sum_weights
select-weight before x after rand s h e lo hi =
    let split = split-positive before x after (subst (All (λ y. 1 ≤ y.weight)) e h.positive) in
    let items = ap no_items e ∙ has_items-middle before after x in
    let sum = ap sum_weights e ∙ sum_weights-append before (x ∷ after) in
    let hit =
      ap (select_from (rand s.total + 1) 0 0) e
      ∙ select_from-hit before x after (rand s.total + 1) 0 0 split.0 (omega (arith, lo))
          (omega (arith, hi)) in
    let some_total : leb s.total 0 ≡ false = ground (arith, h.summed, sum, split.1) in
    rw (items, some_total, hit) (ap some (omega arith))
