-- ===== src/Openai/Stream.antt =====
-- The stream of the adapter of OpenAI: the loop that puts the deltas of the events into the queue, the
-- state behind it, and the session that reads both.
use llm_chat_platform.Base.{
  ℕ, ◌||◌, List, [], ◌∷◌, Option, none, some, Text, codes, text_eq, concat, non_empty_or, leb,
  if◌then◌else◌,
}
use llm_chat_platform.Base.Int.{ℤ, pos}
use llm_chat_platform.Json.{Value, Entries, str, list, dict, end, items_of, field, get}
use llm_chat_platform.Provider.{
  ProviderErrorKind, ProviderError, Outcome, ProviderResult, ProviderStreamResult,
  ProviderStreamSession, auth, rate_limit, bad_request, unknown, provider_error, returned, raised,
}
use llm_chat_platform.Openai.{
  HttpxError, OpenaiConfig, Builtins, error_of, map_httpx_exc, map_http_status, is_transient,
  is_str, str_or, safe_int, build_provider_result,
}
use llm_chat_platform.Openai.Events.{
  StreamFailure, provider_failed, other_exception, normalize_stream_error, SseEvent,
  nothing_pending, iter_sse_events,
}

-- `event_name or _stream_payload_type(payload)`
abbrev pub event_type : SseEvent → Text
event_type e = elim e.name [ some t ↦ t | none ↦ str_or [] (get "type" e.payload) ]

-- `_extract_stream_delta`
abbrev pub extract_stream_delta : SseEvent → Text
extract_stream_delta e =
    if text_eq (event_type e) (codes "response.output_text.delta")
    then str_or [] (get "delta" e.payload)
    else []

abbrev pub dict_or_none : Option Value → Option Entries
dict_or_none (some (dict es)) = some es
dict_or_none v = none

-- `_extract_stream_response_payload`
abbrev pub extract_stream_response_payload : SseEvent → Option Entries
extract_stream_response_payload e =
    if text_eq (event_type e) (codes "response.completed")
    then dict_or_none (get "response" e.payload)
    else none

-- The kind by the type of the error; a list or a dict has no hash, and raises a `TypeError`.
abbrev pub kind_of_type : Option Value → Option ProviderErrorKind
kind_of_type (some (list vs)) = none
kind_of_type (some (dict es)) = none
kind_of_type v = some (
    if is_str "invalid_request_error" v
    then bad_request
    else if is_str "authentication_error" v || is_str "invalid_api_key" v
    then auth
    else if is_str "rate_limit_error" v
    then rate_limit
    else unknown)

abbrev pub kind_of_error :
    (status : Option ℤ) → (error_type : Option Value) → Option ProviderErrorKind
kind_of_error (some status) error_type = some (map_http_status status).kind
kind_of_error none error_type = kind_of_type error_type

abbrev pub str_or_none : Option Value → Option Text
str_or_none (some (str t)) = some t
str_or_none v = none

-- What the loop leaves behind: the deltas in the queue, the last complete response, and the
-- exception that ended it.
pub record Consumed : Type 0 where
  pub parts : List Text
  pub completed : Option Entries
  pub failure : Option StreamFailure

abbrev pub put_part : Text → Consumed → Consumed
put_part [] c = c
put_part (d ∷ t) c = record c { parts = (d ∷ t) ∷ c.parts }

abbrev pub latest : Option Entries → Option Entries → Option Entries
latest (some es) before = some es
latest none before = before

abbrev pub unless_failed : Option StreamFailure → Option Entries → Consumed → Consumed
unless_failed (some f) completed later = record {
  parts = [];
  completed = completed;
  failure = some f;
}
unless_failed none completed later = later

-- `_OpenAIStreamState` behind the loop.
pub record StreamState : Type 0 where
  pub final_result : Option ProviderStreamResult
  pub error : Option ProviderError

abbrev pub failed_state : StreamFailure → StreamState
failed_state f = record { final_result = none; error = some (normalize_stream_error f) }

abbrev pub finished_state : (text : Text) → Option ProviderResult → StreamState
finished_state text none = failed_state other_exception
finished_state text (some r) = record {
  final_result = some (record {
    content = non_empty_or text r.content;
    provider_result = record r { content = non_empty_or text r.content };
  });
  error = none;
}

abbrev pub result_of :
    Option ProviderError → Option ProviderStreamResult → Outcome ProviderStreamResult
result_of (some e) r = raised (provider_error e)
result_of none (some r) = returned r
result_of none none = raised (provider_error (error_of unknown "provider stream incomplete"))

-- `get_final_result`
abbrev pub get_final_result : StreamState → Outcome ProviderStreamResult
get_final_result s = result_of s.error s.final_result

-- What opening the stream gives: an exception, or a status and the lines behind it.
pub data StreamAnswer : Type 0 where
  open_failed : HttpxError → StreamAnswer
  opened : (status : ℕ) → (lines : List Text) → (broken : Option StreamFailure) → StreamAnswer

module _ (python : Builtins) where
  abbrev pub error_of_kind : Entries → Option ProviderErrorKind → StreamFailure
  error_of_kind error none = other_exception
  error_of_kind error (some kind) = provider_failed record {
    kind = kind;
    message = str_or (codes "provider request failed") (get "message" error);
    provider = codes "openai";
    http_status = safe_int python (get "status" error);
    retryable = is_transient kind;
    error_code = str_or_none (get "code" error);
  }

  abbrev pub error_in : Option Value → Option StreamFailure
  error_in (some (dict error)) = some (
      error_of_kind error (kind_of_error (safe_int python (get "status" error)) (get "type" error)))
  error_in v = none

  -- `_extract_stream_error`, or the exception that it raises.
  unfoldable pub extract_stream_error : Entries → Option StreamFailure
  unfolding map_http_status
  extract_stream_error payload = error_in (get "error" payload)

  -- The loop of `_consume_stream`.
  unfoldable pub consume :
      List SseEvent → Option StreamFailure → (completed : Option Entries) → Consumed
  unfolding extract_stream_error
  consume [] failure completed = record { parts = []; completed = completed; failure = failure }
  consume (e ∷ es) failure completed = unless_failed (extract_stream_error e.payload) completed (
      put_part (extract_stream_delta e)
        (consume es failure (latest (extract_stream_response_payload e) completed)))

  module _ (config : OpenaiConfig) (latency_ms : ℕ) where
    -- The payload that stands in for a response that never completed.
    abbrev pub synthetic : Text → Entries
    synthetic text =
        field "output"
          (list (
            items_of (
              dict (
                field "type" (str (codes "message")) (
                  field "role" (str (codes "assistant")) (
                    field "content"
                      (list (
                        items_of (
                          dict
                            (field "type" (str (codes "output_text")) (field "text" (str text) end))
                          ∷ [])))
                      end)))
              ∷ [])))
          (field "model" (str config.model) end)

    -- `final_response_payload or {...}`
    abbrev pub final_payload : (text : Text) → Option Entries → Entries
    final_payload text none = synthetic text
    final_payload text (some end) = synthetic text
    final_payload text (some (Entries.entry k v es)) = Entries.entry k v es

    abbrev pub final_state :
        (parts : List Text) → (completed : Option Entries) → Option StreamFailure → StreamState
    final_state parts completed (some f) = failed_state f
    final_state parts completed none =
        finished_state (concat parts)
          (build_provider_result python config latency_ms (final_payload (concat parts) completed))

    abbrev pub session_of : Consumed → ProviderStreamSession
    session_of c = record {
      chunks = c.parts;
      broken = none;
      final_result = get_final_result (final_state c.parts c.completed c.failure);
    }

    -- `stream`
    unfoldable pub stream : StreamAnswer → Outcome (Option ProviderStreamSession)
    unfolding iter_sse_events consume map_http_status build_provider_result
    stream (open_failed e) = raised (provider_error (map_httpx_exc e))
    stream (opened status lines broken) =
        let read = iter_sse_events python.is_space lines broken nothing_pending in
        if leb 400 status
        then raised (provider_error (map_http_status (pos status)))
        else returned (some (session_of (consume read.events read.failure none)))
