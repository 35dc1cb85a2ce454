-- ===== src/Openai.antt =====
-- The adapter of OpenAI: app/core/providers/openai_provider.py, what it makes of the answers of its
-- HTTP client and of the bodies there. Python's `int` on a text or a float, and the test of a float
-- for zero, are arguments. Logs, and what closing a client may raise, are left out.
pub mod Events
pub mod Stream
pub mod Normalized
pub mod Shown
mod Tests
use llm_chat_platform.Base.{
  ℕ, suc, ◌≡◌, max, Bool, true, false, not, ◌&&◌, ◌||◌, List, [], ◌∷◌, ◌++◌, map, Option, none,
  some, String, Text, codes, text_eq, is_nil, strip, non_empty_or, leb, ◌==◌, if◌then◌else◌,
}
use llm_chat_platform.Base.Int.{ℤ, pos, negsuc, ◌+ℤ◌}
use llm_chat_platform.Base.Options.{◌>>=◌}
use llm_chat_platform.Chat.{ChatMessage, role_text}
use llm_chat_platform.Json.{
  Value, Entries, null, bool, int, float, str, list, dict, nil, cons, end, entry, items, items_of,
  field, get,
}
use llm_chat_platform.Provider.{
  ProviderErrorKind, ProviderError, Failure, Outcome, ProviderResult, timeout, auth, rate_limit,
  bad_request, upstream, unknown, provider_error_of, provider_error, timed_out, other_error,
  returned, raised,
}
use llm_chat_platform.Retry.{RetryPolicy, retry_async}

-- The exceptions of httpx: its time-outs, its other failures of a request, and what is neither.
pub data HttpxError : Type 0 where
  http_timeout request_error other_error_of_http : HttpxError

abbrev pub error_of : ProviderErrorKind → String → ProviderError
error_of kind message = provider_error_of kind (codes message) (codes "unknown")

-- `_map_httpx_exc`
abbrev pub map_httpx_exc : HttpxError → ProviderError
map_httpx_exc http_timeout = error_of timeout "provider timeout"
map_httpx_exc request_error = error_of upstream "provider upstream error"
map_httpx_exc other_error_of_http = error_of unknown "provider unknown error"

-- `_map_http_status`
unfoldable pub map_http_status : ℤ → ProviderError
map_http_status (negsuc n) = error_of unknown "provider request failed"
map_http_status (pos n) =
    if n == 400
    then error_of bad_request "provider request failed"
    else if n == 401 || n == 403
    then error_of auth "provider auth failed"
    else if n == 429
    then error_of rate_limit "provider rate limited"
    else if leb 500 n && leb n 599
    then error_of upstream "provider upstream error"
    else error_of unknown "provider request failed"

-- The kinds that are worth another attempt.
abbrev pub is_transient : ProviderErrorKind → Bool
is_transient rate_limit = true
is_transient upstream = true
is_transient timeout = true
is_transient _ = false

-- `_should_retry`
abbrev pub should_retry : Failure → Bool
should_retry (provider_error e) = is_transient e.kind
should_retry timed_out = false
should_retry (other_error n) = false

pub record OpenaiConfig : Type 0 where
  pub model : Text
  pub max_attempts : ℕ
  pub backoff_base_ms : ℕ
  pub backoff_max_ms : ℕ

-- The built-in functions on a JSON value: `int`, and whether a float is zero.
pub record Builtins : Type 0 where
  pub is_space : ℕ → Bool
  pub int_of : Value → Option ℤ
  pub is_zero : Text → Bool

abbrev pub message_value : ChatMessage → Value
message_value m = dict (
    field "role" (str (role_text m.role)) (
      field "content"
        (list (
          items_of (
            dict (field "type" (str (codes "input_text")) (field "text" (str m.content) end))
            ∷ [])))
        end))

-- `_build_payload`, on the messages for the provider.
abbrev pub build_payload : OpenaiConfig → List ChatMessage → Value
build_payload config messages = dict (
    field "model" (str config.model)
      (field "input" (list (items_of (map message_value messages))) end))

abbrev pub is_str : String → Option Value → Bool
is_str s (some (str t)) = text_eq t (codes s)
is_str s v = false

abbrev pub str_or : Text → Option Value → Text
str_or otherwise (some (str t)) = non_empty_or t otherwise
str_or otherwise v = otherwise

-- What posting a request gives: an exception, or a status with a body, if that is JSON.
pub data PostAnswer : Type 0 where
  post_failed : HttpxError → PostAnswer
  posted : (status : ℕ) → (body : Option Value) → PostAnswer

-- `_op`
abbrev pub op : PostAnswer → Outcome (Option Value)
op (post_failed e) = raised (provider_error (map_httpx_exc e))
op (posted status body) =
    if leb 400 status then raised (provider_error (map_http_status (pos status))) else returned body

abbrev pub unknown_failure : Failure
unknown_failure = provider_error (error_of unknown "provider unknown error")

abbrev pub or_unknown : Option ProviderResult → Outcome ProviderResult
or_unknown (some r) = returned r
or_unknown none = raised unknown_failure

abbrev pub policy_of : OpenaiConfig → RetryPolicy
policy_of config = record {
  max_attempts = max 1 config.max_attempts;
  base_delay_ms = config.backoff_base_ms;
  max_delay_ms = config.backoff_max_ms;
}

module _ (python : Builtins) where
  abbrev pub truthy : Value → Bool
  truthy null = false
  truthy (bool b) = b
  truthy (int (pos n)) = not (n == 0)
  truthy (int (negsuc n)) = true
  truthy (float t) = not (python.is_zero t)
  truthy (str t) = not (is_nil t)
  truthy (list nil) = false
  truthy (list (cons v vs)) = true
  truthy (dict end) = false
  truthy (dict (entry k v es)) = true

  -- `_safe_int`
  abbrev pub safe_int : Option Value → Option ℤ
  safe_int none = none
  safe_int (some null) = none
  safe_int (some (int z)) = some z
  safe_int (some (bool true)) = some (pos 1)
  safe_int (some (bool false)) = some (pos 0)
  safe_int (some (float t)) = python.int_of (float t)
  safe_int (some (str t)) = python.int_of (str t)
  safe_int (some (list vs)) = none
  safe_int (some (dict es)) = none

  -- A value that is walked, or asked for a key; `none` is the exception where it cannot be. What is
  -- walked has members that are asked for a key, which those of a text or a dict cannot be.
  abbrev pub walked : Value → Option (List Value)
  walked (list vs) = some (items vs)
  walked v = none

  abbrev pub asked : Value → Option Entries
  asked (dict es) = some es
  asked v = none

  -- `value or []` and `value or {}`
  abbrev pub list_or_empty : Option Value → Option (List Value)
  list_or_empty none = some []
  list_or_empty (some v) = if truthy v then walked v else some []

  abbrev pub dict_or_empty : Option Value → Option Entries
  dict_or_empty none = some end
  dict_or_empty (some v) = if truthy v then asked v else some end

  abbrev pub part_text : Value → Option Text
  part_text v = do
    part ← asked v
    some (if is_str "output_text" (get "type" part) then str_or [] (get "text" part) else [])

  abbrev pub parts_text : List Value → Option Text
  parts_text [] = some []
  parts_text (v ∷ vs) = do t ← part_text v; more ← parts_text vs; some (t ++ more)

  abbrev pub content_text : Entries → Option Text
  content_text item = list_or_empty (get "content" item) >>= parts_text

  abbrev pub message_text : (from_assistant : Bool) → Entries → Option Text
  message_text true item = content_text item
  message_text false item = some []

  abbrev pub item_text : Value → Option Text
  item_text v = do
    item ← asked v
    message_text (is_str "message" (get "type" item) && is_str "assistant" (get "role" item)) item

  abbrev pub items_text : List Value → Option Text
  items_text [] = some []
  items_text (v ∷ vs) = do t ← item_text v; more ← items_text vs; some (t ++ more)

  -- `_extract_output_text`
  unfoldable pub extract_output_text : Entries → Option Text
  extract_output_text payload = do
    output ← list_or_empty (get "output" payload)
    text ← items_text output
    some (non_empty_or (strip python.is_space text) (codes "(empty response)"))

  -- The total of the usage, or the sum of its parts.
  abbrev pub total_or_sum : (total input output : Option ℤ) → Option ℤ
  total_or_sum (some t) input output = some t
  total_or_sum none (some i) (some o) = some (i +ℤ o)
  total_or_sum none (some i) none = none
  total_or_sum none none output = none

  abbrev pub result_with :
      OpenaiConfig
      → (latency_ms : ℕ) → Entries
      → (usage : Entries) → (content : Text) → ProviderResult
  result_with config latency_ms payload usage content = record {
    content = content;
    provider = codes "openai";
    model_version = str_or config.model (get "model" payload);
    prompt_version = str_or (codes "v1") (get "prompt_version" payload);
    input_tokens = safe_int (get "input_tokens" usage);
    output_tokens = safe_int (get "output_tokens" usage);
    total_tokens =
        total_or_sum (safe_int (get "total_tokens" usage)) (safe_int (get "input_tokens" usage))
          (safe_int (get "output_tokens" usage));
    latency_ms = some latency_ms;
    raw = none;
  }

  -- `_build_provider_result`, with `_extract_model_version` and `_extract_prompt_version`; `none` is
  -- an exception that is no `ProviderError`.
  unfoldable pub build_provider_result :
      OpenaiConfig → (latency_ms : ℕ) → Entries → Option ProviderResult
  unfolding extract_output_text
  build_provider_result config latency_ms payload = do
    usage ← dict_or_empty (get "usage" payload)
    content ← extract_output_text payload
    some (result_with config latency_ms payload usage content)

  -- `generate` behind the attempts.
  abbrev pub after_attempts :
      OpenaiConfig → (latency_ms : ℕ) → Outcome (Option Value) → Outcome ProviderResult
  after_attempts config latency_ms (raised (provider_error e)) = raised (provider_error e)
  after_attempts config latency_ms (raised timed_out) = raised unknown_failure
  after_attempts config latency_ms (raised (other_error n)) = raised unknown_failure
  after_attempts config latency_ms (returned body) =
      or_unknown (body >>= asked >>= build_provider_result config latency_ms)

  -- `generate`, on what each attempt's post gives.
  unfoldable pub generate :
      (jitter : ℕ → ℕ)
      → OpenaiConfig
      → (latency_ms : ℕ) → (answers : (attempt : ℕ) → PostAnswer) → Outcome ProviderResult
  unfolding map_http_status build_provider_result retry_async
  generate jitter config latency_ms answers =
      after_attempts config latency_ms
        (retry_async jitter (λ n. op (answers n)) should_retry (policy_of config)).0
