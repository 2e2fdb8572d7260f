-- ===== src/Examples/Cascade.antt =====
-- Runs of a session of the hub with a spoke (internal/cascade): one whose job is answered by the
-- close of the session, and one whose stream is left while a chunk is about to be written.
use oh_my_api.Base.{
  text_eq, trim_space, trim_left, is_some, arith, ltb, length, All, List, ◌≡◌, refl, Bool, true,
  false, none, some, [], ◌∷◌, txt, pos, lookup, insert, delete, inl, inr, Text, text_eq,
}
use oh_my_api.Cascade.Waiter.{
  session_closed, JobWaiter, new_job_waiter, Chunk, fail, finish_locked, append_locked, wait,
  append_chunk, finish_chunk,
}
use oh_my_api.Cascade.Waiter.Frames.{deliver}
use oh_my_api.Cascade.Waiter.Assembly.{IsDelivered, job_response-IsDelivered}
use oh_my_api.Cascade.Session.{
  Phase, begun, sent, over, Job, appending, writing, Session, new_session, begin_job, end_job,
  fail_listed, fail_all_jobs, Step, begin, send, leave, look_up, call, close, sweep, Steps, here,
  next,
}
use oh_my_api.Cascade.Session.Closing.{IsAnswered, closed_session-answers}
use oh_my_api.Cascade.Session.Orphans.{IsStuck, abandoned_write-IsStuck}
use oh_my_api.Health.{new_checker, is_healthy, make_health_key}
use oh_my_api.Cascade.Hub.{Hub, new_hub, is_configured, set_health_checker, take_session}
use oh_my_api.Cascade.Hub.Health.{
  Event, registers, ends, pins, apply_events, apply_events-is_healthy,
}
use oh_my_api.Cascade.Metadata.{
  MetadataModel, is_blank, max_metadata_snapshot_entries, metadata_context_length,
  parse_metadata_snapshot, add_entries, add_entry, byte_length, stored_length,
}
use oh_my_api.Cascade.Metadata.Accepted.{IsEntry, advertised, parse_metadata_snapshot-accepted}

abbrev id : Text
id = txt "job-1"

abbrev hello : Chunk
hello = record { chunk = txt "hi"; final = false; status = pos 0 }

abbrev goodbye : Chunk
goodbye = record { chunk = txt "ye"; final = true; status = pos 200 }

abbrev overloaded : Chunk
overloaded = record { chunk = txt "busy"; final = true; status = pos 503 }

two_frames :
    wait none (deliver (hello ∷ goodbye ∷ []) (new_job_waiter false)) ≡ some (inr (txt "hiye"))
unfolding deliver new_job_waiter append_chunk append_locked finish_chunk finish_locked wait
two_frames = refl

-- A stream that ends with an error.
job_response-IsDelivered_example : IsDelivered true (hello ∷ []) overloaded
job_response-IsDelivered_example =
    job_response-IsDelivered true (hello ∷ []) overloaded (refl, tt) refl

abbrev job_in : Phase → JobWaiter → Job
job_in p w = record { id = id; waiter = w; phase = p }

abbrev began : Bool → Session
began stream = begin_job id stream new_session

abbrev sent_job : Bool → Session
sent_job stream = record (began stream) { all = job_in sent (new_job_waiter stream) ∷ [] }

begin_step : (stream : Bool) → Step new_session (began stream)
unfolding new_session
begin_step stream = begin id stream tt refl

send_step : (stream : Bool) → Step (began stream) (sent_job stream)
unfolding new_session begin_job insert
send_step stream = send 0 (job_in begun (new_job_waiter stream)) refl refl refl refl

sent_run : (stream : Bool) → Steps new_session (sent_job stream)
sent_run stream = next (next here (begin_step stream)) (send_step stream)

-- The session closes while the job waits.
abbrev gone : Text
gone = txt "session ended"

abbrev closing : Session
closing = record (sent_job false) { closed = true; sweeping = some gone }

abbrev closed_down : Session
closed_down = record (fail_all_jobs (session_closed gone) closing) { sweeping = none; swept = true }

close_step : Step (sent_job false) closing
unfolding new_session begin_job
close_step = close gone refl refl

sweep_step : Step closing closed_down
unfolding fail_all_jobs
sweep_step = sweep gone refl refl

closed_session-answers_example : IsAnswered (fail (session_closed gone) (new_job_waiter false))
unfolding new_session begin_job insert fail_all_jobs fail_listed
closed_session-answers_example =
    closed_session-answers 0 (job_in sent (fail (session_closed gone) (new_job_waiter false)))
      (next (next (sent_run false) close_step) sweep_step) refl refl (inl refl)

-- The first chunk of a stream arrives; the waiter has been looked up.
abbrev arriving : Session
arriving = record (sent_job true) { calls = appending 0 hello ∷ [] }

abbrev half_open : JobWaiter
half_open = record (new_job_waiter true) { first_ready = true }

-- The first lock of appendChunk is over, and the chunk is about to be written.
abbrev about_to_write : Session
about_to_write = record (sent_job true) {
  all = job_in sent half_open ∷ [];
  calls = writing 0 hello ∷ [];
}

-- The request's context has ended, and ExecuteJob has left.
abbrev left_behind : Session
left_behind = record new_session { all = job_in over half_open ∷ []; calls = writing 0 hello ∷ [] }

look_up_step : Step (sent_job true) arriving
unfolding new_session begin_job insert lookup text_eq
look_up_step = look_up id 0 (appending 0 hello) refl refl refl refl

append_step : Step arriving about_to_write
unfolding new_session begin_job insert append_locked new_job_waiter
append_step = call 0 (appending 0 hello) (job_in sent (new_job_waiter true)) refl refl refl refl

leave_step : Step about_to_write left_behind
unfolding new_session begin_job insert delete end_job text_eq
leave_step = leave 0 (job_in sent half_open) refl (inr refl) refl

left_run : Steps new_session left_behind
left_run = next (next (next (sent_run true) look_up_step) append_step) leave_step

stuck : IsStuck 0 hello left_behind
unfolding new_session new_job_waiter
stuck = record {
  job = job_in over half_open;
  there = refl;
  abandoned = record {
    phase_over = refl;
    no_err = refl;
    not_done = refl;
    open_pipe = refl;
    reader_open = refl;
  };
  unlisted = tt;
  only = ((λ e. refl), tt);
  pending = inl refl;
}

-- Not even the close of the session ends the write.
abbrev closing_stuck : Session
closing_stuck = record left_behind { closed = true; sweeping = some gone }

abbrev closed_stuck : Session
closed_stuck = record (fail_all_jobs (session_closed gone) closing_stuck) {
  sweeping = none;
  swept = true;
}

close_stuck_step : Step left_behind closing_stuck
unfolding new_session
close_stuck_step = close gone refl refl

sweep_stuck_step : Step closing_stuck closed_stuck
unfolding fail_all_jobs
sweep_stuck_step = sweep gone refl refl

abandoned_write-IsStuck_example : IsStuck 0 hello closed_stuck
abandoned_write-IsStuck_example =
    abandoned_write-IsStuck stuck (next (next here close_stuck_step) sweep_stuck_step)

-- A spoke registers, a second one takes its place, and the end of the first changes nothing.
abbrev hub_events : List Event
hub_events = registers 20 1 ∷ registers 30 2 ∷ ends 40 1 ∷ []

abbrev corp : Hub
corp = new_hub (txt "corp") (txt "secret") (new_checker 3 30)

-- Close marks the first two keys, then the session that it has closed ends, then the third one.
abbrev close_events : List Event
close_events =
    pins 45 (txt "openai.chat")
    ∷ pins 46 (txt "openai.responses")
    ∷ ends 47 2
    ∷ pins 48 (txt "anthropic.messages")
    ∷ []

corp-is_configured : is_configured corp ≡ true
unfolding text_eq trim_space trim_left
corp-is_configured = refl

apply_events-is_healthy_example :
    let h = apply_events hub_events (set_health_checker 10 true corp) in
    let closed = apply_events close_events (take_session h) in
    (is_healthy h.health 50 (make_health_key (txt "corp") (txt "openai.chat")) ≡ is_some h.session)
    × (closed.session ≡ none)
    × (is_healthy closed.health 50 (make_health_key (txt "corp") (txt "openai.chat")) ≡ false)
apply_events-is_healthy_example =
    apply_events-is_healthy 10 50 (txt "corp") (txt "openai.chat") (txt "secret") (new_checker 3 30)
      hub_events close_events corp-is_configured (omega arith) (omega arith)
      (
        (tt, (omega arith, omega arith)),
        ((tt, (omega arith, omega arith)), ((tt, (omega arith, omega arith)), tt)),
      )
      (
        (tt, (omega arith, omega arith)),
        (
          (tt, (omega arith, omega arith)),
          ((tt, (omega arith, omega arith)), ((tt, (omega arith, omega arith)), tt)),
        ),
      )
      (inl refl) (inl refl)

-- Two entries, one of which has no length yet.
abbrev advertised_models : List MetadataModel
advertised_models =
    record { model = txt "big"; context_length = some (pos 128000) }
    ∷ record { model = txt "new"; context_length = none }
    ∷ []

parse_metadata_snapshot-accepted_example :
    (is_blank (txt "frame-1") ≡ false)
    × (ltb max_metadata_snapshot_entries (length advertised_models) ≡ false)
    × All IsEntry advertised_models
    × ((name : Text)
        → metadata_context_length ((txt "big", pos 128000) ∷ (txt "new", pos 0) ∷ []) name
          ≡ advertised name advertised_models)
unfolding parse_metadata_snapshot add_entries add_entry byte_length stored_length lookup insert
    text_eq
parse_metadata_snapshot-accepted_example =
    parse_metadata_snapshot-accepted true (txt "frame-1") advertised_models
      ((txt "big", pos 128000) ∷ (txt "new", pos 0) ∷ []) refl
