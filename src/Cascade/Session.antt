-- ===== src/Cascade/Session.antt =====
-- internal/cascade/session.go and ExecuteJob of job.go: a session of the hub with a spoke, with all
-- goroutines that use it, as a step relation. A step is what one lock protects: a call that looks a
-- waiter up and then uses it is two steps, with the call in `calls` between them. What the spoke
-- sends, when requests come and end, and when the session is closed is open. The write to the
-- connection and the metadata are left out.
pub mod Entries
pub mod Kept
pub mod Updates
pub mod Closing
pub mod Orphans
use oh_my_api.Base.{
  ℕ, zero, suc, ◌≡◌, ◌≢◌, ◌⊎◌, Bool, true, false, Option, none, some, List, [], ◌∷◌, ◌++◌, Text,
  is_some, get_elem?, erase_idx, length, All, Map, lookup, insert, delete, if◌then◌else◌, ◌&&◌,
}
use oh_my_api.Cascade.Waiter.{
  Fault, session_closed, JobWaiter, new_job_waiter, Chunk, fail, append_locked, to_pipe,
  write_chunk, finish_chunk, is_nonempty, is_open, is_bad_status, response_status,
}

-- Where ExecuteJob is: it has begun the job, sent it, returned the body of a stream, or left it.
pub data Phase : Type 0 where
  begun : Phase
  sent : Phase
  streaming : Phase
  over : Phase

pub record Job : Type 0 where
  pub id : Text
  pub waiter : JobWaiter
  pub phase : Phase

-- A call that holds the waiter of the job at an index: fail, and the three parts of appendChunk.
pub data Call : Type 0 where
  failing : ℕ → Fault → Call
  appending : ℕ → Chunk → Call
  writing : ℕ → Chunk → Call
  finishing : ℕ → Call

-- `all` holds every job there was, `jobs` the indices of those in the map of the session. `sweeping`
-- is the reason of the closeWithReason that is about to fail all jobs, `swept` that it has.
pub record Session : Type 0 where
  pub closed : Bool
  pub sweeping : Option Text
  pub swept : Bool
  pub jobs : Map ℕ
  pub all : List Job
  pub calls : List Call

-- newSession
unfoldable pub new_session : Session
new_session = record {
  closed = false;
  sweeping = none;
  swept = false;
  jobs = [];
  all = [];
  calls = [];
}

abbrev pub update : ℕ → (Job → Job) → List Job → List Job
update k f [] = []
update zero f (j ∷ js) = f j ∷ js
update (suc k) f (j ∷ js) = j ∷ update k f js

abbrev pub on_waiter : (JobWaiter → JobWaiter) → Job → Job
on_waiter f j = record j { waiter = f j.waiter }

abbrev pub at_waiter : ℕ → (JobWaiter → JobWaiter) → Session → Session
at_waiter k f s = record s { all = update k (on_waiter f) s.all }

abbrev pub in_phase : Phase → Job → Job
in_phase p j = record j { phase = p }

-- beginJob
unfoldable pub begin_job : Text → Bool → Session → Session
begin_job id stream s = record s {
  jobs = insert id (length s.all) s.jobs;
  all = s.all ++ (record { id = id; waiter = new_job_waiter stream; phase = begun } ∷ []);
}

-- endJob, with which ExecuteJob leaves the job.
unfoldable pub end_job : ℕ → Job → Session → Session
end_job k j s = record s { jobs = delete j.id s.jobs; all = update k (in_phase over) s.all }

-- The loop of failAllJobs over the map.
unfoldable pub fail_listed : Fault → Map ℕ → List Job → List Job
fail_listed e [] all = all
fail_listed e ((id, k) ∷ rest) all = fail_listed e rest (update k (on_waiter (fail e)) all)

-- failAllJobs
unfoldable pub fail_all_jobs : Fault → Session → Session
fail_all_jobs e s = record s { jobs = []; all = fail_listed e s.jobs s.all }

-- What a call does to its waiter.
abbrev pub call_waiter : Call → JobWaiter → JobWaiter
call_waiter (failing k e) w = fail e w
call_waiter (appending k c) w = (append_locked c w).0
call_waiter (writing k c) w = write_chunk c.chunk w
call_waiter (finishing k) w = finish_chunk w

-- What is left of appendChunk after its part.
abbrev pub call_next : Call → JobWaiter → List Call
call_next (failing k e) w = []
call_next (appending k c) w =
    if (append_locked c w).1
    then if to_pipe c w && is_nonempty c.chunk
      then writing k c ∷ []
      else if c.final
      then finishing k ∷ []
      else []
    else []
call_next (writing k c) w = if c.final then finishing k ∷ [] else []
call_next (finishing k) w = []

abbrev pub call_index : Call → ℕ
call_index (failing k e) = k
call_index (appending k c) = k
call_index (writing k c) = k
call_index (finishing k) = k

-- The calls that cancelJob, deliverError and deliverResult make on the waiter they look up.
abbrev pub is_entry : Call → Bool
is_entry (failing k e) = true
is_entry (appending k c) = true
is_entry (writing k c) = false
is_entry (finishing k) = false

-- Whether a call can go on: a write to a pipe waits for its reader, the client of a streamed answer,
-- or for the close of one of the ends.
abbrev pub CanGoOn : Call → Job → Type 0
CanGoOn (failing k e) j = j ≡ j
CanGoOn (appending k c) j = j ≡ j
CanGoOn (writing k c) j =
    (is_some j.waiter.err ≡ true)
    ⊎ (j.phase ≡ streaming)
    ⊎ (j.waiter.reader_closed ≡ true)
    ⊎ (is_open j.waiter.pipe ≡ false)
CanGoOn (finishing k) j = j ≡ j

abbrev pub run_call : ℕ → Call → Job → Session → Session
run_call n c j s = record s {
  all = update (call_index c) (on_waiter (call_waiter c)) s.all;
  calls = erase_idx s.calls n ++ call_next c j.waiter;
}

-- One step of one of the goroutines. The ids are those of uuid.NewString, none of which comes twice.
pub data Step (s u : Session) : Type 0 where
  begin :
      (id : Text) (stream : Bool)
      → All (λ j. j.id ≢ id) s.all
      → u ≡ begin_job id stream s
      → Step s u
  send :
      (k : ℕ) (j : Job)
      → get_elem? s.all k ≡ some j
      → j.phase ≡ begun
      → s.closed ≡ false
      → u ≡ record s { all = update k (in_phase sent) s.all }
      → Step s u
  leave :
      (k : ℕ) (j : Job)
      → get_elem? s.all k ≡ some j
      → (j.phase ≡ begun) ⊎ (j.phase ≡ sent)
      → u ≡ end_job k j s
      → Step s u
  return_stream :
      (k : ℕ) (j : Job)
      → get_elem? s.all k ≡ some j
      → j.phase ≡ sent
      → j.waiter.stream ≡ true
      → (j.waiter.first_ready ≡ true) ⊎ (j.waiter.done ≡ true)
      → is_bad_status (response_status j.waiter) ≡ false
      → u ≡ record s { all = update k (in_phase streaming) s.all }
      → Step s u
  close_body :
      (k : ℕ) (j : Job)
      → get_elem? s.all k ≡ some j
      → j.phase ≡ streaming
      → u ≡ at_waiter k (λ w. record w { reader_closed = true }) (end_job k j s)
      → Step s u
  look_up :
      (id : Text) (k : ℕ) (c : Call)
      → lookup id s.jobs ≡ some k
      → call_index c ≡ k
      → is_entry c ≡ true
      → u ≡ record s { calls = s.calls ++ (c ∷ []) }
      → Step s u
  call :
      (n : ℕ) (c : Call) (j : Job)
      → get_elem? s.calls n ≡ some c
      → get_elem? s.all (call_index c) ≡ some j
      → CanGoOn c j
      → u ≡ run_call n c j s
      → Step s u
  close :
      (reason : Text)
      → s.closed ≡ false
      → u ≡ record s { closed = true; sweeping = some reason }
      → Step s u
  sweep :
      (reason : Text)
      → s.sweeping ≡ some reason
      → u ≡ record (fail_all_jobs (session_closed reason) s) { sweeping = none; swept = true }
      → Step s u

-- A run of the session.
pub data Steps (s : Session) : Session → Type 0 where
  here : Steps s s
  next : {t u : Session} → Steps s t → Step t u → Steps s u
