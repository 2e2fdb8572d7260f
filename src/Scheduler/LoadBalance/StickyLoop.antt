-- ===== src/Scheduler/LoadBalance/StickyLoop.antt =====
-- internal/scheduler/loadbalance.go: executeStickyLoop, the load balancer with sticky sessions. The
-- candidates go by their key (adaptiveCandidateKey of soft_failure.go).
pub mod Progress
use oh_my_api.Base.{
  ℕ, zero, suc, Bool, true, false, not, ◌&&◌, Option, none, some, List, [], ◌∷◌, ◌++◌, keep,
  is_some, length, if◌then◌else◌, Text, text_eq, Map, lookup, insert, ℤ,
}
use oh_my_api.Health.{Checker, is_healthy, make_health_key}
use oh_my_api.RateLimit.{identity}
use oh_my_api.Scheduler.Types.{success, Task, Result, Outcome, result, error}
use oh_my_api.Scheduler.Fallback.{Fallback, new_fallback, final}
use oh_my_api.Scheduler.World.{Env, World}
use oh_my_api.Scheduler.Failover.{stop_sequential}
use oh_my_api.Scheduler.Sticky.{StickyStore, pick_sticky_or_deficit, record_sticky_success}
use oh_my_api.Scheduler.LoadBalance.{settle_outcome, try_task}

-- adaptiveCandidateKey: the provider, a slash and the upstream model.
unfoldable pub adaptive_candidate_key : Task → Text
unfolding identity
adaptive_candidate_key task = identity task.provider_name task.upstream_model

pub record Candidates : Type 0 where
  pub remaining : List Text
  pub weights : Map ℤ
  pub task_by_key : Map Task

-- The loop that collects the candidates; a later one with the same key replaces the task.
unfoldable pub collect : Candidates → List Task → Candidates
unfolding adaptive_candidate_key
collect c [] = c
collect c (t ∷ ts) =
    let key = adaptive_candidate_key t in
    collect
      (record {
        remaining =
            if is_some (lookup key c.task_by_key) then c.remaining else c.remaining ++ (key ∷ []);
        weights = insert key t.weight c.weights;
        task_by_key = insert key t c.task_by_key;
      })
      ts

unfoldable pub remove_string : List Text → Text → List Text
remove_string keys target = keep (λ k. not (text_eq k target)) keys

-- Whether a key's task is there and has another health key.
abbrev pub has_other_key : Text → Option Task → Bool
has_other_key key none = false
has_other_key key (some t) = not (text_eq (make_health_key t.provider_name t.outbound_protocol) key)

unfoldable pub remove_unhealthy_sibling_keys : ℕ → List Text → Map Task → Checker → Task → List Text
unfolding is_healthy
remove_unhealthy_sibling_keys now keys task_by_key health task =
    let key = make_health_key task.provider_name task.outbound_protocol in
    if is_healthy health now key
    then keys
    else keep (λ k. has_other_key key (lookup k task_by_key)) keys

abbrev pub succeeded : Outcome → Bool
succeeded (result r) = elim r.failure_kind [ success ↦ true | _ ↦ false ]
succeeded (error e) = false

-- The group, the name of the request's key and the idle time.
pub record Session : Type 0 where
  pub group : Text
  pub key_name : Text
  pub idle_timeout : ℕ

module _ (env : Env) (session : Session) (start : ℕ) (c : Candidates) where
  pub data StickyStep : Type 0 where
    returned : Outcome → World env → StickyStore → StickyStep
    continued : List Text → World env → StickyStore → Fallback → StickyStep

  -- What is recorded of an outcome: a success, at the moment of the success.
  abbrev pub recorded : Outcome → Text → World env → StickyStore → StickyStore
  recorded o picked w store =
      if succeeded o
      then record_sticky_success session.group session.key_name picked session.idle_timeout
          (env.clock w.net) store
      else store

  unfoldable pub attempt_key :
      Text → Task → List Text → World env → StickyStore → Fallback → StickyStep
  attempt_key picked task remaining w store f =
      let (o, w1) = try_task env task w in
      let left =
        remove_unhealthy_sibling_keys (env.clock w1.net) (remove_string remaining picked)
          c.task_by_key w1.health task in
      let (done, f1) = settle_outcome (env.ctx_err w1.net) o f in
      elim done [
        | some o' ↦ returned o' w1 (recorded o picked w1 store)
        | none ↦ continued left w1 store f1
      ]

  unfoldable pub sticky_round : List Text → World env → StickyStore → Fallback → StickyStep
  sticky_round remaining w store f =
      let (stop, f1) = stop_sequential (env.ctx_err w.net) none f in
      elim stop [
        | some a ↦ returned (error a) w store
        | none ↦
            let (picked, store1) =
              pick_sticky_or_deficit session.group session.key_name true start remaining c.weights
                store in
            if text_eq picked []
            then returned (final f1).0 w store1
            else elim (lookup picked c.task_by_key) [
              | none ↦ continued (remove_string remaining picked) w store1 f1
              | some task ↦ attempt_key picked task remaining w store1 f1
            ]
      ]

  abbrev pub and_then :
      StickyStep
      → (List Text → World env → StickyStore → Fallback → Outcome × World env × StickyStore)
      → Outcome × World env × StickyStore
  and_then (returned o w store) rest = (o, w, store)
  and_then (continued remaining w store f) rest = rest remaining w store f

  -- The loop, for at most so many rounds.
  unfoldable pub sticky_loop :
      ℕ → List Text → World env → StickyStore → Fallback → Outcome × World env × StickyStore
  sticky_loop zero remaining w store f = ((final f).0, w, store)
  sticky_loop (suc n) [] w store f = ((final f).0, w, store)
  sticky_loop (suc n) (k ∷ ks) w store f =
      and_then (sticky_round (k ∷ ks) w store f) (sticky_loop n)

abbrev pub no_candidates : Candidates
no_candidates = record { remaining = []; weights = []; task_by_key = [] }

-- executeStickyLoop, of the healthy candidates, at the start of the request.
unfoldable pub execute_sticky_loop :
    (env : Env)
    → Session
    → ℕ
    → List Task
    → World env
    → StickyStore
    → Outcome × World env × StickyStore
unfolding collect
execute_sticky_loop env session start healthy_tasks w store =
    let c = collect no_candidates healthy_tasks in
    sticky_loop env session start c (length c.remaining) c.remaining w store new_fallback
