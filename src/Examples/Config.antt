-- ===== src/Examples/Config.antt =====
-- Time ranges, effort levels and wire formats (internal/config, internal/codec) at work.
use oh_my_api.Base.{
  false, ℕ, ◌≡◌, refl, true, some, none, List, [], ◌∷◌, ◌++◌, arith, Text, txt, text_eq, to_lower,
  trim_space,
}
use oh_my_api.Config.TimeRange.{DisabledTimeRange, parse_time_range}
use oh_my_api.Config.TimeRange.Format.{clock, parse_time_range-clock}
use oh_my_api.Config.Effort.{effort_rank, apply_reasoning_effort, replace, value_rank}
use oh_my_api.Config.Effort.Nearest.{IsNearest, apply_reasoning_effort-IsNearest}
use oh_my_api.Config.Provider.{
  ProviderConfig, formats_in, endpoint_formats, get_endpoint, select_outbound_format,
  protocol_reachable, no_formats,
}
use oh_my_api.Config.Provider.Reachable.{Serves, select_outbound_format-reachable}
use oh_my_api.Codec.Format.{
  format_text, format_eq, normalize_provider_format, cheapest_from, lowest_cost, openai_chat,
  openai_response, anthropic_messages, Choice, conversion_cost, select_best_format,
}
use oh_my_api.Codec.Format.Cheapest.{IsCheapest, select_best_format-IsCheapest}
use oh_my_api.Config.Rules.{RuleConfig}
use oh_my_api.Config.Rules.Normalize.{
  kept_effort, normalize_effort_from, normalize_reasoning_effort_slice,
}

abbrev night : DisabledTimeRange
night = record { start = 1320; stop = 360 }

parse_time_range-clock_example : parse_time_range (clock 1320 ++ (b'-' ∷ clock 360)) ≡ some night
parse_time_range-clock_example =
    parse_time_range-clock 1320 360 (omega arith) (omega arith) (omega arith)

select_best_format-IsCheapest_example :
    (choice : Choice) × (select_best_format (anthropic_messages ∷ openai_response ∷ []) openai_chat
      ≡ some choice)
    × IsCheapest openai_chat (anthropic_messages ∷ openai_response ∷ []) choice.format choice.cost
select_best_format-IsCheapest_example =
    select_best_format-IsCheapest anthropic_messages (openai_response ∷ []) openai_chat
      (ground arith)

-- Nothing is lowered in these examples: the table of lower case is the identity.
abbrev same : ℕ → ℕ
same c = c

abbrev levels : List Text
levels = txt "low" ∷ txt "high" ∷ []

apply_reasoning_effort-IsNearest_example :
    let (t, action) = apply_reasoning_effort same (txt "xhigh") levels in
    (action ≡ replace) × IsNearest (value_rank (to_lower same (trim_space (txt "xhigh")))) levels t
unfolding effort_rank text_eq trim_space
apply_reasoning_effort-IsNearest_example =
    apply_reasoning_effort-IsNearest same (txt "xhigh") (txt "low") (txt "high" ∷ [])
      (refl, (refl, tt)) (ground arith)

abbrev provider : ProviderConfig
provider = record {
  endpoint = txt "http://old";
  endpoints =
      record { url = txt "http://a"; protocols = txt "unknown" ∷ [] }
      ∷ record { url = txt "http://b"; protocols = txt "anthropic.messages" ∷ [] }
      ∷ [];
  protocols = [];
}

abbrev converted : Choice
converted = record { format = anthropic_messages; reason = lowest_cost; cost = 2 }

chosen : select_outbound_format same provider openai_chat ≡ some converted
unfolding select_outbound_format select_best_format cheapest_from conversion_cost endpoint_formats
    formats_in normalize_provider_format trim_space text_eq format_eq
chosen = refl

select_outbound_format-reachable_example :
    (protocol_reachable same provider (format_text anthropic_messages) ≡ true)
    × (no_formats (endpoint_formats same provider.endpoints) ≡ false
        → Serves same provider.endpoints anthropic_messages
            (get_endpoint same provider (format_text anthropic_messages)))
select_outbound_format-reachable_example =
    select_outbound_format-reachable same provider openai_chat converted (ground arith) chosen

-- A blank level, and one that is given twice.
abbrev untidy : List Text
untidy = txt " low" ∷ txt "" ∷ txt "low" ∷ txt "high" ∷ []

tidied : normalize_reasoning_effort_slice same untidy ≡ record { value = levels; changed = true }
unfolding normalize_effort_from kept_effort text_eq trim_space
tidied = refl

abbrev untidy_rule : RuleConfig
untidy_rule = record {
  match = record { client_model = none; key = none; upstream_model = none };
  action = record {
    protocol = txt "openai";
    effort = untidy;
    effort_mode = [];
    temperature_mode = txt " strip";
    thinking = [];
    max_tokens = none;
    qpm = none;
    enable_time_range = [];
    disable_time_range = [];
    retries = none;
  };
}
