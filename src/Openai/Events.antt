-- ===== src/Openai/Events.antt =====
-- The events of a stream of OpenAI: `_iter_sse_events` and `_parse_sse_event` of
-- app/core/providers/openai_provider.py, and the exceptions that may end them. The lines are what the
-- client's iterator gives, up to an exception if there is one.
use llm_chat_platform.Base.{
  ℕ, Bool, ◌||◌, List, [], ◌∷◌, ◌++◌, Option, none, some, Text, codes, text_eq, is_nil, strip,
  strip_left, join_lf, some_unless_empty, ◌==◌, if◌then◌else◌,
}
use llm_chat_platform.Json.{Value, Entries, dict}
use llm_chat_platform.Json.Scan.{after_prefix}
use llm_chat_platform.Json.Load.{loads}
use llm_chat_platform.Provider.{ProviderError, unknown}
use llm_chat_platform.Openai.{HttpxError, error_of, map_httpx_exc}

-- An exception of the loop: a `ProviderError`, one of httpx, of the parser, or another.
pub data StreamFailure : Type 0 where
  provider_failed : ProviderError → StreamFailure
  httpx_failed : HttpxError → StreamFailure
  not_json other_exception : StreamFailure

-- `_normalize_stream_error`
abbrev pub normalize_stream_error : StreamFailure → ProviderError
normalize_stream_error (provider_failed e) = e
normalize_stream_error (httpx_failed e) = map_httpx_exc e
normalize_stream_error not_json = error_of unknown "provider stream parse error"
normalize_stream_error other_exception = error_of unknown "provider unknown error"

pub record SseEvent : Type 0 where
  pub name : Option Text
  pub payload : Entries

-- The events that an iteration yields, and the exception that ends it.
pub record EventStream : Type 0 where
  pub events : List SseEvent
  pub failure : Option StreamFailure

pub data Parsed : Type 0 where
  no_event : Parsed
  event : SseEvent → Parsed
  bad_event : StreamFailure → Parsed

abbrev pub of_payload : Option Text → Option Value → Parsed
of_payload name none = bad_event not_json
of_payload name (some (dict es)) = event (record { name = name; payload = es })
of_payload name (some v) =
    bad_event (provider_failed (error_of unknown "provider stream parse error"))

abbrev pub put_event : Parsed → EventStream → EventStream
put_event no_event later = later
put_event (event e) later = record later { events = e ∷ later.events }
put_event (bad_event f) later = record { events = []; failure = some f }

-- A line, stripped.
pub data Line : Type 0 where
  blank ignored : Line
  named : Option Text → Line
  data_of : Text → Line

-- The event that is being read.
pub record Pending : Type 0 where
  pub event_name : Option Text
  pub data_lines : List Text

abbrev pub nothing_pending : Pending
nothing_pending = record { event_name = none; data_lines = [] }

abbrev pub after_line : Line → Pending → Pending
after_line blank p = nothing_pending
after_line ignored p = p
after_line (named name) p = record p { event_name = name }
after_line (data_of t) p = record p { data_lines = p.data_lines ++ (t ∷ []) }

module _ (is_space : ℕ → Bool) where
  abbrev pub parse_raw : Option Text → (raw : Text) → Parsed
  parse_raw name raw =
      if is_nil raw || text_eq raw (codes "[DONE]") then no_event else of_payload name (loads raw)

  -- `_parse_sse_event`
  unfoldable pub parse_sse_event : Pending → Parsed
  unfolding loads join_lf
  parse_sse_event p =
      if is_nil p.data_lines
      then no_event
      else parse_raw p.event_name (strip is_space (join_lf p.data_lines))

  abbrev pub data_or_ignored : Option Text → Line
  data_or_ignored none = ignored
  data_or_ignored (some t) = data_of (strip_left is_space t)

  abbrev pub named_or_data : (line : Text) → Option Text → Line
  named_or_data line (some t) = named (some_unless_empty (strip is_space t))
  named_or_data line none = data_or_ignored (after_prefix (codes "data:") line)

  abbrev pub kind_of : (line : Text) → Line
  kind_of [] = blank
  kind_of (c ∷ t) =
      if c == 58 then ignored else named_or_data (c ∷ t) (after_prefix (codes "event:") (c ∷ t))

  abbrev pub completed_by : Line → Pending → Parsed
  completed_by blank p = parse_sse_event p
  completed_by ignored p = no_event
  completed_by (named name) p = no_event
  completed_by (data_of t) p = no_event

  -- The end of the lines.
  abbrev pub at_end : Option StreamFailure → Pending → EventStream
  at_end (some f) p = record { events = []; failure = some f }
  at_end none p = put_event (parse_sse_event p) (record { events = []; failure = none })

  -- `_iter_sse_events`
  unfoldable pub iter_sse_events : List Text → Option StreamFailure → Pending → EventStream
  unfolding parse_sse_event
  iter_sse_events [] broken p = at_end broken p
  iter_sse_events (l ∷ ls) broken p =
      put_event (completed_by (kind_of (strip is_space l)) p)
        (iter_sse_events ls broken (after_line (kind_of (strip is_space l)) p))
