-- ===== src/Cascade/Waiter.antt =====
-- internal/cascade/job.go: jobWaiter, in which the hub assembles the answer to one job. Each
-- definition is what one lock of the waiter protects, or one write to its pipe.
pub mod Frames
pub mod Assembly
use oh_my_api.Base.{
  Bool, true, false, ◌&&◌, ◌||◌, not, Option, none, some, List, [], ◌∷◌, ◌++◌, Text, is_some, ◌⊎◌,
  inl, inr, if◌then◌else◌, ℤ, pos, ltb_ℤ, leb_ℤ,
}
use oh_my_api.Scheduler.Abort.{Abort}

-- The errors a job ends with: contextCanceledError, the close of its session with its reason, an
-- error frame of the spoke, and the end of the request's context.
pub data Fault : Type 0 where
  job_canceled : Fault
  session_closed : (reason : Text) → Fault
  upstream_error : (message : Text) → Fault
  context_ended : Abort → Fault

-- The writing end of the pipe of a stream: open, or closed without or with an error.
pub data Pipe : Type 0 where
  no_pipe : Pipe
  open_pipe : Pipe
  closed_pipe : Option Fault → Pipe

-- `written` are the chunks the reader of the pipe has been given, `reader_closed` is the close of its
-- reading end. `done` and `first_ready` are the channels of that name, true when closed.
pub record JobWaiter : Type 0 where
  pub stream : Bool
  pub pipe : Pipe
  pub written : List Text
  pub reader_closed : Bool
  pub buf : Text
  pub done : Bool
  pub first_ready : Bool
  pub err : Option Fault
  pub status_code : ℤ

-- newJobWaiter
unfoldable pub new_job_waiter : Bool → JobWaiter
new_job_waiter stream = record {
  stream = stream;
  pipe = if stream then open_pipe else no_pipe;
  written = [];
  reader_closed = false;
  buf = [];
  done = false;
  first_ready = false;
  err = none;
  status_code = pos 0;
}

abbrev pub close_pipe : Option Fault → Pipe → Pipe
close_pipe e no_pipe = no_pipe
close_pipe e open_pipe = closed_pipe e
close_pipe e (closed_pipe e') = closed_pipe e'

abbrev pub first_fault : Option Fault → Option Fault → Option Fault
first_fault none e = e
first_fault (some e) e' = some e

-- finishLocked
unfoldable pub finish_locked : Option Fault → JobWaiter → JobWaiter
finish_locked e w = if w.done then w else record w {
  err = first_fault w.err e;
  pipe = close_pipe (first_fault w.err e) w.pipe;
  done = true;
}

-- fail
unfoldable pub fail : Fault → JobWaiter → JobWaiter
fail e w = finish_locked (some e) w

-- A result frame of the spoke.
pub record Chunk : Type 0 where
  pub chunk : Text
  pub final : Bool
  pub status : ℤ

-- http.StatusBadRequest
unfoldable pub is_bad_status : ℤ → Bool
is_bad_status status = leb_ℤ (pos 400) status

unfoldable pub is_positive : ℤ → Bool
is_positive status = ltb_ℤ (pos 0) status

abbrev pub is_nonempty : Text → Bool
is_nonempty [] = false
is_nonempty (c ∷ cs) = true

-- Whether appendChunk writes the chunk to the pipe, and not into the buffer: streamUpstreamError of
-- the source is the second condition.
abbrev pub to_pipe : Chunk → JobWaiter → Bool
to_pipe c w = w.stream && not (w.stream && c.final && is_bad_status c.status)

-- The first lock of appendChunk, with the close of firstReady that follows it. The flag says
-- whether appendChunk goes on.
unfoldable pub append_locked : Chunk → JobWaiter → JobWaiter × Bool
append_locked c w = if is_some w.err then (w, false) else (
  record w {
    buf = if to_pipe c w then w.buf else w.buf ++ c.chunk;
    status_code = if c.final && is_positive c.status then c.status else w.status_code;
    first_ready = true;
  },
  true,
)

abbrev pub is_open : Pipe → Bool
is_open no_pipe = false
is_open open_pipe = true
is_open (closed_pipe e) = false

-- The write of appendChunk, once it can go on: a write to a closed pipe fails, which is ignored.
unfoldable pub write_chunk : Text → JobWaiter → JobWaiter
write_chunk chunk w =
    if is_some w.err || w.reader_closed || not (is_open w.pipe)
    then w
    else record w { written = w.written ++ (chunk ∷ []) }

-- The last lock of appendChunk.
unfoldable pub finish_chunk : JobWaiter → JobWaiter
finish_chunk w = if is_some w.err then w else finish_locked none w

-- What follows the first lock, when appendChunk goes on; `piped` is toWrite.
abbrev pub finish_append : Chunk → (piped : Bool) → JobWaiter → JobWaiter
finish_append c piped w =
    let w' = if piped && is_nonempty c.chunk then write_chunk c.chunk w else w in
    if c.final then finish_chunk w' else w'

-- appendChunk, when nothing comes between its parts and the pipe has a reader.
unfoldable pub append_chunk : Chunk → JobWaiter → JobWaiter
append_chunk c w =
    let p = append_locked c w in if p.1 then finish_append c (to_pipe c w) p.0 else p.0

abbrev pub wait_done : Option Fault → Text → Fault ⊎ Text
wait_done none buf = inr buf
wait_done (some e) buf = inl e

-- wait: `none` while it blocks. When both of its cases are ready, Go chooses one: here the context's
-- comes first.
unfoldable pub wait : Option Abort → JobWaiter → Option (Fault ⊎ Text)
wait (some ctx) w = some (inl (context_ended ctx))
wait none w = if w.done then some (wait_done w.err w.buf) else none

-- responseStatus
unfoldable pub response_status : JobWaiter → ℤ
response_status w = if is_positive w.status_code then w.status_code else pos 200

-- waitFirst: `none` while it blocks, else its error. When the first frame has come and the job has
-- ended too, Go chooses one: here the frame comes first.
unfoldable pub wait_first : JobWaiter → Option (Option Fault)
wait_first w = if w.first_ready then some none else if w.done then some w.err else none

-- What ExecuteJob returns: a response with its status and its whole body, a response with the status
-- 200 and a stream, of which the chunks and the end are given, or an error; or it waits.
pub data JobResponse : Type 0 where
  whole : ℤ → Text → JobResponse
  streamed : List Text → Pipe → JobResponse
  failed : Fault → JobResponse
  waits : JobResponse

abbrev pub waited : ℤ → JobWaiter → JobResponse
waited status w = elim (wait none w) [
  | none ↦ waits
  | some r ↦ elim r [ inl e ↦ failed e | inr body ↦ whole status body ]
]

-- ExecuteJob once the job is sent, while its context is alive: `first` is the waiter at the time
-- when the status of a stream is read, `last` the waiter in the end.
unfoldable pub job_response : (first last : JobWaiter) → JobResponse
job_response first last =
    if last.stream
    then elim (wait_first first) [
      | none ↦ waits
      | some o ↦ elim o [
        | some e ↦ failed e
        | none ↦
            if is_bad_status (response_status first)
            then waited (response_status first) last
            else streamed last.written last.pipe
      ]
    ]
    else waited (response_status last) last
