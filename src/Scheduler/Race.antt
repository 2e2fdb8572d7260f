-- ===== src/Scheduler/Race.antt =====
-- internal/scheduler/concurrent.go: the race of ConcurrentStrategy, with finishRaceAbort of
-- context_abort.go. The goroutines and the loop that aggregates are a step relation: which attempt
-- ends next, with what, and when the request's context dies, is open. A result is known by the index
-- of its attempt. Logs are left out, and the cancellation of the losers, which only ends attempts.
pub mod Best
pub mod Progress
pub mod Bodies
pub mod Returns
use oh_my_api.Base.{
  ℕ, zero, suc, ◌+◌, ◌≡◌, Bool, true, false, Option, none, some, List, [], ◌∷◌, ◌++◌, ◌⊎◌, ◌≢◌,
  get_elem?, erase_idx, is_some,
}
use oh_my_api.Scheduler.Types.{
  Err, all_providers_failed, success, hard_failure, soft_failure, Result, Outcome, result, error,
}
use oh_my_api.Scheduler.Abort.{Abort, abort_error}

-- What an attempt sends over the channel: outcome{result, err, idx}.
pub record Arrival : Type 0 where
  pub index : ℕ
  pub outcome : Outcome

-- lastHardResult with lastHardIdx, lastHardErr, lastSoftResult with lastSoftIdx.
pub record Held : Type 0 where
  pub last_hard_result : Option Arrival
  pub last_hard_err : Option Err
  pub last_soft_result : Option Arrival

-- The loop waits, or the race has returned; `kept` is the index of raceStops.keepIndex.
pub data Phase : Type 0 where
  waiting : Held → Phase
  returned : (kept : Option ℕ) → Outcome → Phase

-- `closed` are the results whose bodies were closed, `over` all attempts that have ended.
pub record Race : Type 0 where
  pub running : List ℕ
  pub channel : List Arrival
  pub remaining : ℕ
  pub dead : Option Abort
  pub phase : Phase
  pub closed : List Arrival
  pub over : List Arrival

-- closeResultBody
abbrev pub close_result_body : Option Arrival → List Arrival → List Arrival
close_result_body none closed = closed
close_result_body (some a) closed = closed ++ (a ∷ [])

-- What a goroutine closes when the race is lost.
abbrev pub close_lost : Arrival → List Arrival → List Arrival
close_lost a closed = elim a.outcome [ result r ↦ closed ++ (a ∷ []) | error e ↦ closed ]

-- The loop's first case: an outcome from the channel.
unfoldable pub receive_outcome : Arrival → Held → List Arrival → Phase × List Arrival
receive_outcome a h closed = elim a.outcome [
  | error e ↦ (waiting (record h { last_hard_err = some e }), closed)
  | result r ↦ elim r.failure_kind [
    | success ↦ (
      returned (some a.index) a.outcome,
      close_result_body h.last_soft_result (close_result_body h.last_hard_result closed),
    )
    | soft_failure ↦ (
      waiting (record h { last_soft_result = some a }),
      close_result_body h.last_soft_result closed,
    )
    | hard_failure ↦ (
      waiting (record h { last_hard_result = some a }),
      close_result_body h.last_hard_result closed,
    )
  ]
]

-- The loop's second case, with finishRaceAbort.
unfoldable pub finish_race_abort : Abort → Held → List Arrival → Phase × List Arrival
finish_race_abort ctx h closed = (
  returned none (error (abort_error (some ctx) h.last_hard_err)),
  close_result_body h.last_soft_result (close_result_body h.last_hard_result closed),
)

abbrev pub return_soft : Option Arrival → List Arrival → Phase × List Arrival
return_soft (some a) closed = (returned (some a.index) a.outcome, closed)
return_soft none closed = (returned none (error all_providers_failed), closed)

abbrev pub return_error : Option Err → Option Arrival → List Arrival → Phase × List Arrival
return_error (some e) soft closed = (returned none (error e), close_result_body soft closed)
return_error none soft closed = return_soft soft closed

-- What follows the loop.
unfoldable pub finish_race : Held → List Arrival → Phase × List Arrival
finish_race h closed = elim h.last_hard_result [
  | some a ↦ (returned (some a.index) a.outcome, close_result_body h.last_soft_result closed)
  | none ↦ return_error h.last_hard_err h.last_soft_result closed
]

abbrev pub is_returned : Phase → Bool
is_returned (waiting h) = false
is_returned (returned kept o) = true

abbrev pub with_phase : Race → Phase × List Arrival → Race
with_phase s p = record s { phase = p.0; closed = p.1 }

-- The state in which an attempt has ended, still without its arrival anywhere.
abbrev pub ended : Race → ℕ → Arrival → Race
ended s k a = record s { running = erase_idx s.running k; over = s.over ++ (a ∷ []) }

-- One step of one of the goroutines, or the death of the context. `lost` is done when the race has
-- returned or the context is dead; the channel has room for every outcome.
pub data Step (s u : Race) : Type 0 where
  send :
      (k i : ℕ) (o : Outcome)
      → get_elem? s.running k ≡ some i
      → u ≡ record (ended s k (record { index = i; outcome = o })) {
        channel = s.channel ++ (record { index = i; outcome = o } ∷ []);
      }
      → Step s u
  drop :
      (k i : ℕ) (o : Outcome)
      → get_elem? s.running k ≡ some i
      → (is_returned s.phase ≡ true) ⊎ (is_some s.dead ≡ true)
      → u ≡ record (ended s k (record { index = i; outcome = o })) {
        closed = close_lost (record { index = i; outcome = o }) s.closed;
      }
      → Step s u
  die : (ctx : Abort) → s.dead ≡ none → u ≡ record s { dead = some ctx } → Step s u
  receive :
      (h : Held) (a : Arrival) (rest : List Arrival) (n : ℕ)
      → s.phase ≡ waiting h
      → s.channel ≡ a ∷ rest
      → s.remaining ≡ suc n
      → u ≡ with_phase (record s { channel = rest; remaining = n }) (receive_outcome a h s.closed)
      → Step s u
  abort :
      (h : Held) (ctx : Abort) (n : ℕ)
      → s.phase ≡ waiting h
      → s.dead ≡ some ctx
      → s.remaining ≡ suc n
      → u ≡ with_phase s (finish_race_abort ctx h s.closed)
      → Step s u
  finish :
      (h : Held)
      → s.phase ≡ waiting h
      → s.remaining ≡ zero
      → u ≡ with_phase s (finish_race h s.closed)
      → Step s u

-- A run of the race, with the number of its steps.
pub data Steps (s : Race) : ℕ → Race → Type 0 where
  here : Steps s zero s
  next : {n : ℕ} {t u : Race} → Steps s n t → Step t u → Steps s (suc n) u

-- The indices from `i` on, of `n` attempts.
abbrev pub indices : ℕ → ℕ → List ℕ
indices i zero = []
indices i (suc n) = i ∷ indices (i + 1) n

-- The race of `n` candidates, when all attempts have been started.
unfoldable pub start_race : ℕ → Race
start_race n = record {
  running = indices 0 n;
  channel = [];
  remaining = n;
  dead = none;
  phase =
      waiting (record { last_hard_result = none; last_hard_err = none; last_soft_result = none });
  closed = [];
  over = [];
}
