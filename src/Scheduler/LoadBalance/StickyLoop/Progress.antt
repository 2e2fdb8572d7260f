-- ===== src/Scheduler/LoadBalance/StickyLoop/Progress.antt =====
-- That the sticky loop ends, and what it costs.
use oh_my_api.Base.{
  ℕ, zero, suc, ◌+◌, ◌*◌, ◌≤◌, ◌≡◌, refl, sym, subst, inl, inr, true, not, none, List, [], ◌∷◌,
  ◌++◌, arith, Bool-cases, Option-cases, length, length-append, length-keep-le, any, is_some, Some,
  Text, text_eq, text_eq_refl, Map, lookup, insert, if◌then◌else◌, ℤ,
}
use oh_my_api.Health.{Checker, make_health_key}
use oh_my_api.Scheduler.Types.{Task, Outcome}
use oh_my_api.Scheduler.Fallback.{Fallback, new_fallback}
use oh_my_api.Scheduler.World.{Env, World, Meter}
use oh_my_api.Scheduler.Failover.{stop_sequential}
use oh_my_api.Scheduler.Leaf.Retries.{sends}
use oh_my_api.Scheduler.Sticky.{
  StickyStore, look_up, affinity_key, pick_deficit, pick_sticky_or_deficit,
}
use oh_my_api.Scheduler.Sticky.Deficit.{pick_deficit-least}
use oh_my_api.Scheduler.LoadBalance.{try_task, settle_outcome}
use oh_my_api.Scheduler.LoadBalance.Rounds.{try_task-sends}
use oh_my_api.Scheduler.LoadBalance.StickyLoop.{
  Candidates, collect, no_candidates, adaptive_candidate_key, remove_string,
  remove_unhealthy_sibling_keys, has_other_key, Session, StickyStep, returned, continued,
  attempt_key, sticky_round, and_then, sticky_loop, execute_sticky_loop,
}

abbrev IsAmong : Text → List Text → Type 0
IsAmong x keys = any (λ r. text_eq r x) keys ≡ true

Some-IsAmong : (x : Text) (keys : List Text) → Some (λ d. x ≡ d) keys → IsAmong x keys
Some-IsAmong x [] m = elim m [ ]
Some-IsAmong x (k ∷ ks) (inl e) = ground (arith, subst (λ y. text_eq y x ≡ true) e (text_eq_refl x))
Some-IsAmong x (k ∷ ks) (inr m) = ground (arith, Some-IsAmong x ks m)

pick_deficit-IsAmong :
    (group k : Text) (ks : List Text) (weights : Map ℤ) (s : StickyStore)
    → IsAmong (pick_deficit group (k ∷ ks) weights s) (k ∷ ks)
pick_deficit-IsAmong group k ks weights s =
    Some-IsAmong (pick_deficit group (k ∷ ks) weights s) (k ∷ ks)
      (pick_deficit-least group k ks weights s).0

-- Sticky or not, the choice is one of the remaining keys.
pick_sticky_or_deficit-IsAmong :
    (group key k : Text) (now : ℕ) (ks : List Text) (weights : Map ℤ) (s : StickyStore)
    → IsAmong (pick_sticky_or_deficit group key true now (k ∷ ks) weights s).0 (k ∷ ks)
unfolding pick_sticky_or_deficit
pick_sticky_or_deficit-IsAmong group key k now ks weights s =
    let (found, s1) = look_up (affinity_key key group) now s in
    let P = λ (r : Text × StickyStore). IsAmong r.0 (k ∷ ks) in
    let pick = pick_sticky_or_deficit group key true now (k ∷ ks) weights in
    let fair : (t : StickyStore)
        → pick s ≡ (pick_deficit group (k ∷ ks) weights t, t)
        → P (pick s) =
      λ t eq. subst P (sym eq) (pick_deficit-IsAmong group k ks weights t) in
    elim (Bool-cases (text_eq key [])) [
      | inl e ↦ fair s (rw (e, pick_sticky_or_deficit) refl)
      | inr e ↦ elim (Option-cases found) [
        | inl f ↦ fair s1 (rw (e, f, pick_sticky_or_deficit) refl)
        | inr (cand, f) ↦ elim (Bool-cases (any (λ r. text_eq r cand) (k ∷ ks))) [
          | inr m ↦ fair s1 (rw (e, f, m, pick_sticky_or_deficit) refl)
          | inl m ↦
              let eq : pick s ≡ (cand, s1) = rw (e, f, m, pick_sticky_or_deficit) refl in
              subst P (sym eq) m
        ]
      ]
    ]

remove_string-length :
    (x : Text) (keys : List Text) → IsAmong x keys → length (remove_string keys x) + 1 ≤ length keys
unfolding remove_string
remove_string-length x [] m = cc
remove_string-length x (k ∷ ks) m =
    let less = length-keep-le (λ y. not (text_eq y x)) ks in
    elim (Bool-cases (text_eq k x)) [
      | inl e ↦ rw e (omega (arith, less))
      | inr e ↦ rw e (omega (arith, remove_string-length x ks (rw e at m)))
    ]

siblings-length_keys :
    (now : ℕ) (keys : List Text) (tasks : Map Task) (health : Checker) (task : Task)
    → length (remove_unhealthy_sibling_keys now keys tasks health task) ≤ length keys
unfolding remove_unhealthy_sibling_keys
siblings-length_keys now keys tasks health task =
    let key = make_health_key task.provider_name task.outbound_protocol in
    ground (arith, length-keep-le (λ k. has_other_key key (lookup k tasks)) keys)

module _ (env : Env) (meter : Meter env) (session : Session) (start : ℕ) (c : Candidates) where
  abbrev Advances : List Text → World env → StickyStep env session start c → Type 0
  Advances keys w (returned o w1 store) = sends env meter w1 ≤ sends env meter w + 3
  Advances keys w (continued left w1 store f) =
      (sends env meter w1 ≤ sends env meter w + 3) × (length left + 1 ≤ length keys)

  attempt_key-Advances :
      (picked : Text) (task : Task) (keys : List Text) (w : World env) (store : StickyStore)
      (f : Fallback)
      → IsAmong picked keys
      → Advances keys w (attempt_key env session start c picked task keys w store f)
  unfolding attempt_key
  attempt_key-Advances picked task keys w store f m =
      let (o, w1) = try_task env task w in
      let p = try_task-sends env meter task w in
      let l = remove_string-length picked keys m in
      let k =
        siblings-length_keys (env.clock w1.net) (remove_string keys picked) c.task_by_key w1.health
          task in
      elim (Option-cases (settle_outcome (env.ctx_err w1.net) o f).0) [
        | inl n ↦ rw (n, attempt_key) (p, omega (arith, l, k))
        | inr (d, n) ↦ rw (n, attempt_key) p
      ]

  sticky_round-Advances :
      (k : Text) (ks : List Text) (w : World env) (store : StickyStore) (f : Fallback)
      → Advances (k ∷ ks) w (sticky_round env session start c (k ∷ ks) w store f)
  unfolding sticky_round
  sticky_round-Advances k ks w store f =
      let (stop, f1) = stop_sequential (env.ctx_err w.net) none f in
      let (picked, store1) =
        pick_sticky_or_deficit session.group session.key_name true start (k ∷ ks) c.weights store in
      let m =
        pick_sticky_or_deficit-IsAmong session.group session.key_name k start ks c.weights store in
      elim (Option-cases stop) [
        | inr (a, e) ↦ rw (e, sticky_round) (omega arith)
        | inl e ↦ elim (Bool-cases (text_eq picked [])) [
          | inl x ↦ rw (e, x, sticky_round) (omega arith)
          | inr x ↦ elim (Option-cases (lookup picked c.task_by_key)) [
            | inl y ↦
                rw (e, x, y, sticky_round) (omega arith, remove_string-length picked (k ∷ ks) m)
            | inr (task, y) ↦
                rw (e, x, y, sticky_round) (attempt_key-Advances picked task (k ∷ ks) w store1 f1 m)
          ]
        ]
      ]

  and_then-sends :
      (n : ℕ) (keys : List Text) (w : World env) (step : StickyStep env session start c)
      (rest : List Text → World env → StickyStore → Fallback → Outcome × World env × StickyStore)
      → Advances keys w step
      → ((keys1 : List Text) (w1 : World env) (store1 : StickyStore) (f1 : Fallback)
          → sends env meter (rest keys1 w1 store1 f1).1 ≤ sends env meter w1 + 3 * n)
      → sends env meter (and_then env session start c step rest).1 ≤ sends env meter w + 3 * suc n
  and_then-sends n keys w (returned o w1 store) rest p h = omega (arith, p)
  and_then-sends n keys w (continued left w1 store f) rest p h = omega (arith, p, h left w1 store f)

  sticky_loop-sends :
      (n : ℕ) (keys : List Text) (w : World env) (store : StickyStore) (f : Fallback)
      → sends env meter (sticky_loop env session start c n keys w store f).1
        ≤ sends env meter w + 3 * n
  unfolding sticky_loop
  sticky_loop-sends zero keys w store f = omega arith
  sticky_loop-sends (suc n) [] w store f = omega arith
  sticky_loop-sends (suc n) (k ∷ ks) w store f =
      and_then-sends n (k ∷ ks) w (sticky_round env session start c (k ∷ ks) w store f)
        (sticky_loop env session start c n) (sticky_round-Advances k ks w store f)
        (sticky_loop-sends n)

  and_then_enough :
      (n m : ℕ) (keys : List Text) (w : World env) (step : StickyStep env session start c)
      (one two : List Text → World env → StickyStore → Fallback → Outcome × World env × StickyStore)
      → Advances keys w step
      → length keys ≤ suc n
      → length keys ≤ suc m
      → ((keys1 : List Text) (w1 : World env) (store1 : StickyStore) (f1 : Fallback)
          → length keys1 ≤ n
          → length keys1 ≤ m
          → one keys1 w1 store1 f1 ≡ two keys1 w1 store1 f1)
      → and_then env session start c step one ≡ and_then env session start c step two
  and_then_enough n m keys w (returned o w1 store) one two p a b h = refl
  and_then_enough n m keys w (continued left w1 store f) one two p a b h =
      h left w1 store f (omega (arith, p, a)) (omega (arith, p, b))

  sticky_loop_terminates :
      (n m : ℕ) (keys : List Text) (w : World env) (store : StickyStore) (f : Fallback)
      → length keys ≤ n
      → length keys ≤ m
      → sticky_loop env session start c n keys w store f
        ≡ sticky_loop env session start c m keys w store f
  unfolding sticky_loop
  sticky_loop_terminates zero zero keys w store f a b = refl
  sticky_loop_terminates zero (suc m) [] w store f a b = refl
  sticky_loop_terminates (suc n) zero [] w store f a b = refl
  sticky_loop_terminates zero (suc m) (k ∷ ks) w store f a b = absurd (omega (arith, a))
  sticky_loop_terminates (suc n) zero (k ∷ ks) w store f a b = absurd (omega (arith, b))
  sticky_loop_terminates (suc n) (suc m) [] w store f a b = refl
  sticky_loop_terminates (suc n) (suc m) (k ∷ ks) w store f a b =
      and_then_enough n m (k ∷ ks) w (sticky_round env session start c (k ∷ ks) w store f)
        (sticky_loop env session start c n) (sticky_loop env session start c m)
        (sticky_round-Advances k ks w store f) a b (sticky_loop_terminates n m)

collect-length :
    (c : Candidates) (tasks : List Task)
    → length (collect c tasks).remaining ≤ length c.remaining + length tasks
unfolding collect
collect-length c [] = omega arith
collect-length c (t ∷ ts) =
    let key = adaptive_candidate_key t in
    let known = is_some (lookup key c.task_by_key) in
    let next : Candidates = record {
      remaining = if known then c.remaining else c.remaining ++ (key ∷ []);
      weights = insert key t.weight c.weights;
      task_by_key = insert key t c.task_by_key;
    } in
    let l = length-append c.remaining (key ∷ []) in
    let grown : length next.remaining ≤ length c.remaining + 1 = ground (arith, l) in
    omega (arith, grown, collect-length next ts)

module _ (env : Env) (meter : Meter env) (session : Session) (start : ℕ) where
  -- In a world whose exchanges can be counted (calls of the provider's client, each of which may send
  -- a request a second time in a compatible form), the sticky loop makes at most three for each of the
  -- tasks it is given, and ends by itself: with any bound on the rounds from the number of keys on,
  -- it does the same.
  pub execute_sticky_loop-sends :
      (tasks : List Task) (w : World env) (store : StickyStore)
      → (sends env meter (execute_sticky_loop env session start tasks w store).1
          ≤ sends env meter w + 3 * length tasks)
        × ((n : ℕ)
            → let c = collect no_candidates tasks in
              length c.remaining ≤ n
              → sticky_loop env session start c n c.remaining w store new_fallback
                ≡ execute_sticky_loop env session start tasks w store)
  unfolding execute_sticky_loop
  execute_sticky_loop-sends tasks w store =
      let c = collect no_candidates tasks in
      let keys = c.remaining in
      let few = collect-length no_candidates tasks in
      let run =
        sticky_loop-sends env meter session start c (length keys) keys w store new_fallback in
      (
        omega (arith, few, run),
        λ n h.
            sticky_loop_terminates env meter session start c n (length keys) keys w store
              new_fallback h (omega arith),
      )
