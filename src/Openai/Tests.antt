-- ===== src/Openai/Tests.antt =====
-- Responses of the vendor, in one piece and streamed, and the theorems there.
use llm_chat_platform.Base.{
  ℕ, ◌≡◌, refl, Bool, false, ◌==◌, List, [], ◌∷◌, Option, none, some, Text, codes, if◌then◌else◌,
  join_lf,
}
use llm_chat_platform.Base.Int.{ℤ, pos}
use llm_chat_platform.Json.{Value}
use llm_chat_platform.Json.Load.{loads}
use llm_chat_platform.Provider.{
  Outcome, ProviderResult, ProviderPort, ProviderStreamSession, returned, raised,
}
use llm_chat_platform.Openai.{
  OpenaiConfig, Builtins, PostAnswer, posted, generate, extract_output_text, map_http_status,
  build_provider_result,
}
use llm_chat_platform.Openai.Events.{iter_sse_events, parse_sse_event}
use llm_chat_platform.Openai.Stream.{StreamAnswer, opened, stream, consume, extract_stream_error}
use llm_chat_platform.Retry.{retry_async, retry_from, attempt_once}
use llm_chat_platform.Route.{Environment}
use llm_chat_platform.Route.Streamed.{event_generator}
use llm_chat_platform.Route.Ownership.{empty_db}
use llm_chat_platform.Route.Sample.{acme, first_request, asked}
use llm_chat_platform.Openai.Shown.{IsStored, event_generator-IsStored}
use llm_chat_platform.Openai.Normalized.{IsNormal, generate-IsNormal}

abbrev is_blank : ℕ → Bool
is_blank c = c == 32

abbrev no_int : Value → Option ℤ
no_int v = none

abbrev python : Builtins
python = record { is_space = is_blank; int_of = no_int; is_zero = λ t. false }

abbrev config : OpenaiConfig
config = record {
  model = codes "small";
  max_attempts = 3;
  backoff_base_ms = 200;
  backoff_max_ms = 2000;
}

-- Busy at first, then an answer.
abbrev at_attempt : ℕ → PostAnswer
at_attempt n =
    if n == 1
    then posted 503 none
    else posted 200 (
        loads (
          codes
            "{\"output\":[{\"type\":\"message\",\"role\":\"assistant\",\"content\":[{\"type\":\"output_text\",\"text\":\" hi \"}]}],\"usage\":{\"input_tokens\":2,\"output_tokens\":3}}"))

abbrev at_once : ℕ → ℕ
at_once bound = 0

abbrev answer_text : Outcome ProviderResult → Text
answer_text (raised e) = []
answer_text (returned r) = r.content

abbrev answer_total : Outcome ProviderResult → Option ℤ
answer_total (raised e) = none
answer_total (returned r) = r.total_tokens

answered_later : answer_text (generate python at_once config 4 at_attempt) ≡ codes "hi"
unfolding generate build_provider_result extract_output_text map_http_status retry_async retry_from
    attempt_once loads
answered_later = refl

summed : answer_total (generate python at_once config 4 at_attempt) ≡ some (pos 5)
unfolding generate build_provider_result extract_output_text map_http_status retry_async retry_from
    attempt_once loads
summed = refl

generate-IsNormal_example : IsNormal (generate python at_once config 4 at_attempt)
generate-IsNormal_example = generate-IsNormal python config 4 at_once at_attempt

-- Two deltas, a comment, and the end of the response.
abbrev two_deltas : List Text
two_deltas =
    codes "event: response.output_text.delta"
    ∷ codes "data: {\"delta\":\"hel\"}"
    ∷ []
    ∷ codes ": ping"
    ∷ codes "data: {\"type\":\"response.output_text.delta\",\"delta\":\"lo\"}"
    ∷ []
    ∷ codes "data: [DONE]"
    ∷ []

abbrev streamed : StreamAnswer
streamed = opened 200 two_deltas none

abbrev chunks_of : Outcome (Option ProviderStreamSession) → List Text
chunks_of (raised e) = []
chunks_of (returned none) = []
chunks_of (returned (some s)) = s.chunks

read_deltas : chunks_of (stream python config 4 streamed) ≡ codes "hel" ∷ codes "lo" ∷ []
unfolding stream loads iter_sse_events parse_sse_event join_lf consume extract_stream_error
read_deltas = refl

-- A provider that streams through the adapter.
abbrev adapter : ProviderPort
adapter = record {
  label = codes "openai";
  generate = generate python at_once config 4 at_attempt;
  stream = some (stream python config 4 streamed);
}

abbrev surrounding : Environment
surrounding = record acme { resolve = λ streaming messages metadata. returned adapter }

event_generator-IsStored_example :
    IsStored surrounding first_request
      (asked first_request)
      empty_db
      (event_generator surrounding first_request (asked first_request) empty_db)
event_generator-IsStored_example =
    event_generator-IsStored python config 4 streamed surrounding first_request
      (asked first_request) empty_db adapter refl refl
