-- ===== src/Scheduler/World.antt =====
-- The state that a scheduling run reads and changes, and what it takes from outside: the clock,
-- the request's context, the spoke sessions, and the exchange with an upstream, whose answer is a
-- parameter (doWithAttemptBudget hands back a response with what its body reads as, or an error).
-- `idle` is what happens while a run waits for a token, or between two checks of the context.
-- Other requests that run at the same time are outside the model.
use oh_my_api.Base.{ℕ, ◌+◌, Bool, Option, Text, ◌≡◌}
use oh_my_api.Health.{Checker}
use oh_my_api.RateLimit.{TokenBucket, Manager}
use oh_my_api.Scheduler.Types.{Task, Response, Err}
use oh_my_api.Scheduler.Abort.{Abort}
use oh_my_api.Scheduler.Classify.{Reading}

pub data Reply : Type 0 where
  replied : Response → Reading → Reply
  broken : Err → Reply

pub record Env : Type 1 where
  pub rate : TokenBucket
  pub Net : Type 0
  pub ctx_err : Net → Option Abort
  pub clock : Net → ℕ
  pub minute : Net → ℕ
  pub cascade_ready : Net → Text → Bool
  pub send : Task → Net → Reply × Net
  pub idle : Net → Net

-- Counting the exchanges with upstreams, the calls of Client.DoWithMeta. That a call may send a
-- second request (responses_compat.go of the provider client) is inside of an exchange.
pub record Meter (env : Env) : Type 0 where
  pub exchanges : env.Net → ℕ
  pub exchanges-idle : (net : env.Net) → exchanges (env.idle net) ≡ exchanges net
  pub exchanges-send :
      (task : Task) (net : env.Net) → exchanges (env.send task net).1 ≡ exchanges net + 1

module _ (env : Env) where
  pub record World : Type 0 where
    pub health : Checker
    pub limits : Manager env.rate
    pub net : env.Net
