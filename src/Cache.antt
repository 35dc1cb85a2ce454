-- ===== src/Cache.antt =====
-- The cache of whole answers: app/services/chat_response_cache.py. Redis is an argument, what its
-- `get` answers under each key; a write is the entry that `set` asks it to store. SHA-256 is an
-- argument, as are Python's `str` and `int` on a value that they have to convert. A call gives the
-- event that it logs.
pub mod Entry
pub mod Key
mod Tests
use llm_chat_platform.Base.{
  ℕ, Bool, true, false, List, [], ◌∷◌, ◌++◌, map, Option, none, some, Text, codes, Result, ok, err,
}
use llm_chat_platform.Base.Int.{ℤ}
use llm_chat_platform.Base.Options.{◌>>=◌}
use llm_chat_platform.Chat.{Role, ChatMessage, system, user, assistant, role_text}
use llm_chat_platform.Json.{
  Value, Entries, null, bool, int, float, str, list, dict, items_of, get, end, field,
}
use llm_chat_platform.Json.Ascii.{dumps_ascii, sort_value}
use llm_chat_platform.Json.Load.{loads}
use llm_chat_platform.Provider.{ProviderResult}
use llm_chat_platform.Service.{ChatServiceResult, answer_of}

-- The settings that the key reads.
pub record CacheSettings : Type 0 where
  pub provider : Text
  pub fallback_provider : Option Text
  pub openai_model : Text
  pub bedrock_model : Option Text
  pub bedrock_prompt_version : Text
  pub stub_provider_mode : Text

-- Python's conversions of a value that is not of the type already.
pub record Conversions : Type 0 where
  pub str_of : Value → Text
  pub int_of : Value → Option ℤ

abbrev pub text_or_null : Option Text → Value
text_or_null none = null
text_or_null (some t) = str t

abbrev pub int_or_null : Option ℤ → Value
int_or_null none = null
int_or_null (some n) = int n

abbrev pub fingerprint_message : ChatMessage → Value
fingerprint_message m =
    dict (field "role" (str (role_text m.role)) (field "content" (str m.content) end))

unfoldable pub fingerprint : CacheSettings → List ChatMessage → Value
fingerprint s messages = dict (
    field "messages" (list (items_of (map fingerprint_message messages))) (
      field "provider" (str s.provider) (
        field "fallback_provider" (text_or_null s.fallback_provider) (
          field "openai_model" (str s.openai_model) (
            field "bedrock_model" (text_or_null s.bedrock_model) (
              field "bedrock_prompt_version" (str s.bedrock_prompt_version)
                (field "stub_provider_mode" (str s.stub_provider_mode) end)))))))

-- `_cache_key`
unfoldable pub cache_key :
    (sha256 : Text → Text) → CacheSettings → List ChatMessage → (tenant : Text) → Text
unfolding fingerprint dumps_ascii sort_value
cache_key sha256 s messages tenant =
    codes "chat:response:"
    ++ (tenant ++ (58 ∷ sha256 (dumps_ascii (sort_value (fingerprint s messages)))))

-- What `set` stores of an answer.
unfoldable pub payload : ChatServiceResult → Value
payload r = dict (
    field "assistant_content" (str r.assistant_message.content) (
      field "provider_result"
        (dict (
          field "provider" (str r.provider_result.provider) (
            field "model_version" (str r.provider_result.model_version) (
              field "prompt_version" (str r.provider_result.prompt_version) (
                field "input_tokens" (int_or_null r.provider_result.input_tokens) (
                  field "output_tokens" (int_or_null r.provider_result.output_tokens)
                    (field "total_tokens" (int_or_null r.provider_result.total_tokens) end)))))))
        end))

pub record Write : Type 0 where
  pub key : Text
  pub value : Text
  pub ttl_s : ℕ

pub data CacheEvent : Type 0 where
  hit miss read_error decode_error : CacheEvent

module _ (sha256 : Text → Text) (s : CacheSettings) where
  -- `set`: the write that it asks for.
  unfoldable pub cache_set :
      (ttl : ℕ) → List ChatMessage → ChatServiceResult → (tenant : Text) → Write
  unfolding cache_key payload dumps_ascii
  cache_set ttl messages r tenant = record {
    key = cache_key sha256 s messages tenant;
    value = dumps_ascii (payload r);
    ttl_s = ttl;
  }

  module _ (convert : Conversions) where
    -- `str(value)`
    abbrev pub as_text : Value → Text
    as_text (str t) = t
    as_text v = convert.str_of v

    -- `_as_int_or_none`; an outer `none` is an exception.
    abbrev pub as_int_or_none : Option Value → Option (Option ℤ)
    as_int_or_none none = some none
    as_int_or_none (some null) = some none
    as_int_or_none (some (int n)) = some (some n)
    as_int_or_none (some v) = elim (convert.int_of v) [ none ↦ none | some n ↦ some (some n) ]

    -- The provider's part, on its fields.
    abbrev pub decode_provider : (content : Text) → Entries → Option ProviderResult
    decode_provider content es = do
      provider ← get "provider" es
      model_version ← get "model_version" es
      prompt_version ← get "prompt_version" es
      input ← as_int_or_none (get "input_tokens" es)
      output ← as_int_or_none (get "output_tokens" es)
      total ← as_int_or_none (get "total_tokens" es)
      some (record {
        content = content;
        provider = as_text provider;
        model_version = as_text model_version;
        prompt_version = as_text prompt_version;
        input_tokens = input;
        output_tokens = output;
        total_tokens = total;
        latency_ms = none;
        raw = none;
      })

    abbrev pub entries_or_fail : Value → Option Entries
    entries_or_fail (dict es) = some es
    entries_or_fail v = none

    -- The second `try` of `get`, behind `json.loads`.
    unfoldable pub decode_payload : Value → Option ChatServiceResult
    decode_payload v = do
      es ← entries_or_fail v
      provider_payload ← get "provider_result" es
      content ← get "assistant_content" es
      fields ← entries_or_fail provider_payload
      provider_result ← decode_provider (as_text content) fields
      some (record {
        assistant_message = answer_of (as_text content);
        provider_result = provider_result;
      })

    abbrev pub decoded : Option ChatServiceResult → Option ChatServiceResult × CacheEvent
    decoded none = (none, decode_error)
    decoded (some r) = (some r, hit)

    unfoldable pub after_redis : Result (Option Text) → Option ChatServiceResult × CacheEvent
    unfolding loads decode_payload
    after_redis (err e) = (none, read_error)
    after_redis (ok none) = (none, miss)
    after_redis (ok (some [])) = (none, miss)
    after_redis (ok (some (c ∷ raw))) = decoded (loads (c ∷ raw) >>= decode_payload)

    -- `get`
    unfoldable pub cache_get :
        (redis : Text → Result (Option Text))
        → List ChatMessage
        → (tenant : Text) → Option ChatServiceResult × CacheEvent
    unfolding cache_key after_redis
    cache_get redis messages tenant = after_redis (redis (cache_key sha256 s messages tenant))
