-- ===== src/Cache/Entry.antt =====
-- What `get` gives of an entry that `set` stored, and of anything else that Redis may answer.
use llm_chat_platform.Base.{
  ℕ, ◌≡◌, refl, ap, ◌∙◌, true, List, [], ◌∷◌, Option, none, some, Text, Result, ok,
}
use llm_chat_platform.Base.Int.{ℤ}
use llm_chat_platform.Chat.{ChatMessage}
use llm_chat_platform.Json.{Value}
use llm_chat_platform.Json.Ascii.{dumps_ascii}
use llm_chat_platform.Json.Load.{loads}
use llm_chat_platform.Json.Plain.{is_plain}
use llm_chat_platform.Json.RoundTrip.{loads-dumps_ascii}
use llm_chat_platform.Service.{ChatServiceResult, answer_of}
use llm_chat_platform.Cache.{
  CacheSettings, Conversions, hit, int_or_null, payload, cache_set, as_int_or_none, decode_payload,
  after_redis, cache_get, decoded,
}

-- The answer, without what is not stored: the latency and the raw payload.
abbrev pub as_cached : ChatServiceResult → ChatServiceResult
as_cached r = record {
  assistant_message = answer_of r.assistant_message.content;
  provider_result = record r.provider_result {
    content = r.assistant_message.content;
    latency_ms = none;
    raw = none;
  };
}

module _ (sha256 : Text → Text) (s : CacheSettings) (convert : Conversions) where
  as_int_or_none-int_or_null :
      (o : Option ℤ) → as_int_or_none sha256 s convert (some (int_or_null o)) ≡ some o
  as_int_or_none-int_or_null none = refl
  as_int_or_none-int_or_null (some n) = refl

  decode_payload-payload :
      (r : ChatServiceResult) → decode_payload sha256 s convert (payload r) ≡ some (as_cached r)
  unfolding decode_payload payload
  decode_payload-payload r =
      rw
        (
          as_int_or_none-int_or_null r.provider_result.input_tokens,
          as_int_or_none-int_or_null r.provider_result.output_tokens,
          as_int_or_none-int_or_null r.provider_result.total_tokens,
        )
        refl

  after_redis-loads :
      (raw : Text) (v : Value)
      → loads raw ≡ some v
      → after_redis sha256 s convert (ok (some raw))
        ≡ decoded sha256 s convert (decode_payload sha256 s convert v)
  unfolding after_redis loads
  after_redis-loads [] v h = absurd cc
  after_redis-loads (c ∷ raw) v h = rw h refl

  -- An answer whose texts are plain is given back by the next `get` for the same messages and
  -- tenant, as long as Redis answers with what was stored: with the same content, provider, versions
  -- and token counts, without latency and raw payload.
  pub cache_get-cache_set :
      (ttl : ℕ) (messages : List ChatMessage) (r : ChatServiceResult) (tenant : Text)
      (redis : Text → Result (Option Text))
      → is_plain (payload r) ≡ true
      → redis (cache_set sha256 s ttl messages r tenant).key
        ≡ ok (some (cache_set sha256 s ttl messages r tenant).value)
      → cache_get sha256 s convert redis messages tenant ≡ (some (as_cached r), hit)
  unfolding cache_get cache_set
  cache_get-cache_set ttl messages r tenant redis plain stored = rw stored (
      after_redis-loads (dumps_ascii (payload r)) (payload r) (loads-dumps_ascii (payload r) plain)
      ∙ ap (decoded sha256 s convert) (decode_payload-payload r))
