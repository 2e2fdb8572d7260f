-- ===== src/Scheduler/LoadBalance/Rounds.antt =====
-- That the rounds of the load balancer are enough, and what they cost.
use oh_my_api.Base.{
  ℕ, zero, suc, ◌+◌, ◌*◌, ◌≤◌, ◌≡◌, refl, inl, inr, true, not, ◌||◌, Option, none, some, List, [],
  ◌∷◌, arith, Bool-cases, Option-cases, length, length-keep-le, map, erase_idx, get_elem?, Text,
}
use oh_my_api.Health.{Checker, make_health_key}
use oh_my_api.Scheduler.Types.{Task, Outcome}
use oh_my_api.Scheduler.Abort.{entry_abort}
use oh_my_api.Scheduler.Fallback.{Fallback, new_fallback}
use oh_my_api.Scheduler.Selector.{
  SelectorItem, WeightedSelector, new_weighted_selector, is_empty, select, remove_at, remove_task,
  remove_by_health_key, item_of, has_key,
}
use oh_my_api.Scheduler.World.{Env, World, Meter}
use oh_my_api.Scheduler.Leaf.{allow_task}
use oh_my_api.Scheduler.Leaf.Retries.{sends, allow_task-sends, execute_task-sends}
use oh_my_api.Scheduler.Failover.{stop_sequential}
use oh_my_api.Scheduler.LoadBalance.{
  remove_unhealthy_sibling_tasks, settle_outcome, filter_healthy,
  all_providers_disabled_or_unhealthy, no_task, try_task, Step, finished, again, attempt_item,
  item_at, round, loop, after, execute,
}

erase_idx-length :
    (xs : List SelectorItem) (i : ℕ) (x : SelectorItem)
    → get_elem? xs i ≡ some x
    → length (erase_idx xs i) + 1 ≡ length xs
erase_idx-length [] i x e = ground arith
erase_idx-length (y ∷ ys) zero x e = omega arith
erase_idx-length (y ∷ ys) (suc i) x e = omega (arith, erase_idx-length ys i x e)

remove_by_health_key-length :
    (key : Text) (s : WeightedSelector) → length (remove_by_health_key key s).items ≤ length s.items
unfolding remove_by_health_key
remove_by_health_key-length key s =
    ground (arith, length-keep-le (λ x. not (has_key key x)) s.items)

siblings-length :
    (now : ℕ) (task : Task) (health : Checker) (s : WeightedSelector)
    → length (remove_unhealthy_sibling_tasks now task health s).items ≤ length s.items
unfolding remove_unhealthy_sibling_tasks
siblings-length now task health s = ground (
  arith,
  remove_by_health_key-length (make_health_key task.provider_name task.outbound_protocol) s,
)

-- The item that a pointer is to is taken out.
remove_task-length :
    (pointer : Option ℕ) (item : SelectorItem) (s : WeightedSelector)
    → item_at pointer s ≡ some item
    → length (remove_task pointer s).items + 1 ≡ length s.items
unfolding remove_task remove_at
remove_task-length none item s e = ground arith
remove_task-length (some i) item s e = erase_idx-length s.items i item e

module _ (env : Env) (meter : Meter env) where
  pub try_task-sends :
      (task : Task) (w : World env)
      → sends env meter (try_task env task w).1 ≤ sends env meter w + 3
  unfolding try_task
  try_task-sends task w =
      let w1 = (allow_task env task w).1 in
      let p = allow_task-sends env meter task w in
      let q = execute_task-sends env meter task w1 in
      elim (Bool-cases (allow_task env task w).0) [
        | inl e ↦ rw (e, try_task) (omega (arith, p, q))
        | inr e ↦ rw (e, try_task) (omega (arith, p))
      ]

  -- A step makes at most three exchanges, and goes on only with an item less.
  abbrev Progress : WeightedSelector → World env → Step env → Type 0
  Progress s w (finished o w1) = sends env meter w1 ≤ sends env meter w + 3
  Progress s w (again s1 w1 f1) =
      (sends env meter w1 ≤ sends env meter w + 3) × (length s1.items + 1 ≤ length s.items)

  attempt_item-Progress :
      (pointer : Option ℕ) (item : SelectorItem) (s : WeightedSelector) (w : World env)
      (f : Fallback)
      → item_at pointer s ≡ some item
      → Progress s w (attempt_item env pointer item s w f)
  unfolding attempt_item
  attempt_item-Progress pointer item s w f e =
      let (o, w1) = try_task env item.task w in
      let p = try_task-sends item.task w in
      let s1 = remove_task pointer s in
      let l = remove_task-length pointer item s e in
      let k = siblings-length (env.clock w1.net) item.task w1.health s1 in
      elim (Option-cases (settle_outcome (env.ctx_err w1.net) o f).0) [
        | inl n ↦ rw (n, attempt_item) (p, omega (arith, l, k))
        | inr (d, n) ↦ rw (n, attempt_item) p
      ]

  round-Progress :
      (rand : ℕ → ℕ) (s : WeightedSelector) (w : World env) (f : Fallback)
      → Progress s w (round env rand s w f)
  unfolding round
  round-Progress rand s w f =
      let (stop, f1) = stop_sequential (env.ctx_err w.net) none f in
      let pointer = select rand s in
      elim (Option-cases stop) [
        | inr (a, e) ↦ rw (e, round) (omega arith)
        | inl e ↦ elim (Option-cases (item_at pointer s)) [
          | inl k ↦ rw (e, k, round) (omega arith)
          | inr (item, k) ↦ rw (e, k, round) (attempt_item-Progress pointer item s w f1 k)
        ]
      ]

  after-sends :
      (n : ℕ) (s : WeightedSelector) (w : World env) (step : Step env)
      (rest : WeightedSelector → World env → Fallback → Outcome × World env)
      → Progress s w step
      → ((s1 : WeightedSelector) (w1 : World env) (f1 : Fallback)
          → sends env meter (rest s1 w1 f1).1 ≤ sends env meter w1 + 3 * n)
      → sends env meter (after env step rest).1 ≤ sends env meter w + 3 * suc n
  after-sends n s w (finished o w1) rest p h = omega (arith, p)
  after-sends n s w (again s1 w1 f1) rest p h = omega (arith, p, h s1 w1 f1)

  loop-sends :
      (rand : ℕ → ℕ → ℕ) (n : ℕ) (s : WeightedSelector) (w : World env) (f : Fallback)
      → sends env meter (loop env rand n s w f).1 ≤ sends env meter w + 3 * n
  unfolding loop
  loop-sends rand zero s w f = omega arith
  loop-sends rand (suc n) s w f =
      let step = round env (rand (length s.items)) s w f in
      elim (Bool-cases (is_empty s)) [
        | inl e ↦ rw (e, loop) (omega arith)
        | inr e ↦
            rw (e, loop)
              (after-sends n s w step (loop env rand n)
                (round-Progress (rand (length s.items)) s w f) (loop-sends rand n))
      ]

  after_enough :
      (n m : ℕ) (s : WeightedSelector) (w : World env) (step : Step env)
      (one two : WeightedSelector → World env → Fallback → Outcome × World env)
      → Progress s w step
      → length s.items ≤ suc n
      → length s.items ≤ suc m
      → ((s1 : WeightedSelector) (w1 : World env) (f1 : Fallback)
          → length s1.items ≤ n
          → length s1.items ≤ m
          → one s1 w1 f1 ≡ two s1 w1 f1)
      → after env step one ≡ after env step two
  after_enough n m s w (finished o w1) one two p a b h = refl
  after_enough n m s w (again s1 w1 f1) one two p a b h =
      h s1 w1 f1 (omega (arith, p, a)) (omega (arith, p, b))

  is_empty-items : (s : WeightedSelector) → length s.items ≤ 0 → is_empty s ≡ true
  unfolding is_empty
  is_empty-items s h = ground arith

  loop_enough :
      (rand : ℕ → ℕ → ℕ) (n m : ℕ) (s : WeightedSelector) (w : World env) (f : Fallback)
      → length s.items ≤ n
      → length s.items ≤ m
      → loop env rand n s w f ≡ loop env rand m s w f
  unfolding loop
  loop_enough rand zero zero s w f a b = refl
  loop_enough rand zero (suc m) s w f a b = rw (is_empty-items s a, loop) refl
  loop_enough rand (suc n) zero s w f a b = rw (is_empty-items s b, loop) refl
  loop_enough rand (suc n) (suc m) s w f a b =
      let step = round env (rand (length s.items)) s w f in
      elim (Bool-cases (is_empty s)) [
        | inl e ↦ rw (e, loop) refl
        | inr e ↦
            rw (e, loop)
              (after_enough n m s w step (loop env rand n) (loop env rand m)
                (round-Progress (rand (length s.items)) s w f) a b (loop_enough rand n m))
      ]

  filter_healthy-length :
      (minute : ℕ) (w : World env) (tasks : List Task)
      → length (filter_healthy env minute w tasks) ≤ length tasks
  unfolding filter_healthy
  filter_healthy-length minute w tasks = length-keep-le _ tasks

  -- A run makes at most three exchanges for each of its candidates.
  pub execute-sends_weighted :
      (rand : ℕ → ℕ → ℕ) (tasks : List Task) (w : World env)
      → sends env meter (execute env rand tasks w).1 ≤ sends env meter w + 3 * length tasks
  unfolding execute
  execute-sends_weighted rand tasks w =
      let minute = env.minute w.net in
      let healthy = filter_healthy env minute w tasks in
      let run = loop-sends rand (length healthy) (new_weighted_selector healthy) w new_fallback in
      let fits = filter_healthy-length minute w tasks in
      elim (Bool-cases (no_task tasks)) [
        | inl e ↦ rw (e, execute) (omega arith)
        | inr e ↦ elim (Option-cases (entry_abort (env.ctx_err w.net))) [
          | inr (a, k) ↦ rw (e, k, execute) (omega arith)
          | inl k ↦
              elim (Bool-cases
                (all_providers_disabled_or_unhealthy env minute w tasks || no_task healthy)) [
                  | inl d ↦ rw (e, k, d, execute) (omega arith)
                  | inr d ↦ rw (e, k, d, execute) (omega (arith, run, fits))
                ]
        ]
      ]

map-length : (tasks : List Task) → length (map item_of tasks) ≡ length tasks
map-length [] = refl
map-length (t ∷ ts) = omega (arith, map-length ts)

new_weighted_selector-length :
    (tasks : List Task) → length (new_weighted_selector tasks).items ≡ length tasks
unfolding new_weighted_selector
new_weighted_selector-length tasks = map-length tasks

-- In a world whose requests can be counted, the loop over a new selector ends by itself within as
-- many rounds as there are candidates: a larger bound on the rounds does not change what it does.
pub loop_terminates :
    (env : Env) (meter : Meter env) (rand : ℕ → ℕ → ℕ) (n : ℕ) (tasks : List Task) (w : World env)
    (f : Fallback)
    → length tasks ≤ n
    → loop env rand n (new_weighted_selector tasks) w f
      ≡ loop env rand (length tasks) (new_weighted_selector tasks) w f
loop_terminates env meter rand n tasks w f h =
    let l = new_weighted_selector-length tasks in
    loop_enough env meter rand n (length tasks) (new_weighted_selector tasks) w f
      (omega (arith, l, h)) (omega (arith, l))
