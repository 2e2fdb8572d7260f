-- ===== src/Examples/Scheduler/Upstreams.antt =====
-- Three upstreams: one that breaks the connection, one that has no quota left, and one that works.
use oh_my_api.Base.{
  ℕ, ◌+◌, ◌*◌, refl, true, false, Option, none, some, [], ◌∷◌, Text, txt, pos, text_eq,
  if◌then◌else◌,
}
use oh_my_api.Health.{new_checker}
use oh_my_api.Examples.RateLimit.{counted}
use oh_my_api.Scheduler.Types.{
  end_of_file, success, hard_failure, no_reason, http_status, Task, Response, Result,
  no_health_action,
}
use oh_my_api.Scheduler.Abort.{Abort}
use oh_my_api.Scheduler.Classify.{content}
use oh_my_api.Scheduler.World.{Env, World, Meter, Reply, replied, broken}

abbrev pub answer : ℕ → Response
answer status = record {
  status_code = status;
  is_stream = false;
  host = some (txt "host");
  error_code = [];
}

abbrev pub reply_of : Text → Reply
reply_of name =
    if text_eq name (txt "down")
    then broken end_of_file
    else if text_eq name (txt "broke")
    then replied (answer 402) (content success no_reason 0)
    else replied (answer 200) (content success no_reason 0)

-- The network counts its exchanges, one a second; the context is as given.
abbrev pub env_with : Option Abort → Env
env_with ctx = record {
  rate = counted;
  Net = ℕ;
  ctx_err = λ n. ctx;
  clock = λ n. n * 1000000000;
  minute = λ n. 600;
  cascade_ready = λ n name. true;
  send = λ task n. (reply_of task.provider_name, n + 1);
  idle = λ n. n;
}

abbrev pub env : Env
env = env_with none

abbrev pub meter_with : (ctx : Option Abort) → Meter (env_with ctx)
meter_with ctx = record {
  exchanges = λ n. n;
  exchanges-idle = λ n. refl;
  exchanges-send = λ task n. refl;
}

abbrev pub candidate : Text → Task
candidate name = record {
  provider_name = name;
  protocols = txt "openai.chat" ∷ [];
  upstream_model = txt "m";
  outbound_protocol = txt "openai.chat";
  weight = pos 2;
  model_qpm = pos 0;
  enable_time_range = [];
  disable_time_range = [];
  retries = pos 1;
  stream = false;
  request = some (record { has_get_body = true; is_bodiless = false; host = txt "host" });
}

abbrev pub down : Task
down = candidate (txt "down")

abbrev pub broke : Task
broke = candidate (txt "broke")

abbrev pub good : Task
good = candidate (txt "good")

abbrev pub world_with : (ctx : Option Abort) → World (env_with ctx)
world_with ctx = record {
  health = new_checker 3 30000000000;
  limits = record { limiters = []; model_limiters = [] };
  net = 0;
}

abbrev pub world : World env
world = world_with none

abbrev pub result_of : Task → ℕ → Result
result_of task status = record {
  response = answer status;
  winner = task.provider_name;
  upstream_model = task.upstream_model;
  outbound_protocol = task.outbound_protocol;
  failure_kind = hard_failure;
  failure_reason = http_status;
  health_action = no_health_action;
  stream_ttft = 0;
}
