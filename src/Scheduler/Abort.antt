-- ===== src/Scheduler/Abort.antt =====
-- internal/scheduler/context_abort.go: when scheduling stops because the request's context is
-- dead. `ctx` is `ctx.Err()`: none while the context lives.
use oh_my_api.Base.{◌≡◌, Bool, true, false, ◌||◌, Option, none, some, is_some, arith, if◌then◌else◌}
use oh_my_api.Scheduler.Types.{Err, canceled, deadline_exceeded}

-- The two values of a dead context's `Err()`.
pub data Abort : Type 0 where
  by_cancel by_deadline : Abort

abbrev pub abort_err : Abort → Err
abort_err by_cancel = canceled
abort_err by_deadline = deadline_exceeded

-- IsContextAbort
unfoldable pub is_context_abort : Err → Bool
is_context_abort canceled = true
is_context_abort deadline_exceeded = true
is_context_abort _ = false

abbrev pub is_abort : Option Err → Bool
is_abort none = false
is_abort (some e) = is_context_abort e

-- ShouldStopScheduling
unfoldable pub should_stop_scheduling : Option Abort → Option Err → Bool
unfolding is_context_abort
should_stop_scheduling ctx err = is_abort err || is_some ctx

abbrev err_or_canceled : Option Err → Err
err_or_canceled none = canceled
err_or_canceled (some e) = e

abbrev ctx_or : Option Abort → Option Err → Err
ctx_or (some a) err = abort_err a
ctx_or none err = err_or_canceled err

-- abortError
unfoldable pub abort_error : Option Abort → Option Err → Err
unfolding is_context_abort
abort_error ctx err = if is_abort err then err_or_canceled err else ctx_or ctx err

-- entryAbort
unfoldable pub entry_abort : Option Abort → Option Err
entry_abort none = none
entry_abort (some a) = some (abort_err a)

-- Wherever scheduling stops, the error that it stops with is an abort of the context.
pub abort_error-is_context_abort :
    (ctx : Option Abort) (err : Option Err)
    → should_stop_scheduling ctx err ≡ true
    → is_context_abort (abort_error ctx err) ≡ true
unfolding should_stop_scheduling abort_error
abort_error-is_context_abort ctx err h = ground arith
