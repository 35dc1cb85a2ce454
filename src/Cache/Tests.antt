-- ===== src/Cache/Tests.antt =====
-- An answer stored and read again, and the theorems there.
use llm_chat_platform.Base.{
  ◌≡◌, refl, true, List, [], ◌∷◌, Option, none, some, Text, codes, Result, ok, length,
  if◌then◌else◌, text_eq,
}
use llm_chat_platform.Base.Int.{pos}
use llm_chat_platform.Chat.{ChatMessage, user}
use llm_chat_platform.Json.{null}
use llm_chat_platform.Json.Plain.{is_plain}
use llm_chat_platform.Service.{ChatServiceResult, answer_of}
use llm_chat_platform.Cache.{
  CacheSettings, Conversions, hit, miss, decode_error, Write, cache_set, cache_get, fingerprint,
  payload,
}
use llm_chat_platform.Cache.Entry.{as_cached, cache_get-cache_set}
use llm_chat_platform.Cache.Key.{SameRequest, cache_key-SameRequest}

-- A digest of a fixed length.
abbrev short_digest : Text → Text
short_digest [] = 48 ∷ []
short_digest (c ∷ t) = 49 ∷ []

abbrev models : CacheSettings
models = record {
  provider = codes "openai";
  fallback_provider = some (codes "bedrock");
  openai_model = codes "gpt-4.1-mini";
  bedrock_model = none;
  bedrock_prompt_version = codes "v1";
  stub_provider_mode = codes "ok";
}

abbrev converting : Conversions
converting = record { str_of = λ v. codes "None"; int_of = λ v. none }

abbrev question : List ChatMessage
question = record { role = user; content = codes "café?" } ∷ []

abbrev reply : ChatServiceResult
reply = record {
  assistant_message = answer_of (codes "yes \"so\"");
  provider_result = record {
    content = codes "yes \"so\"";
    provider = codes "openai";
    model_version = codes "gpt-4.1-mini";
    prompt_version = codes "v1";
    input_tokens = some (pos 12);
    output_tokens = some (pos 3);
    total_tokens = none;
    latency_ms = some 250;
    raw = some null;
  };
}

abbrev stored : Write
stored = cache_set short_digest models 60 question reply (codes "acme")

abbrev redis : Text → Result (Option Text)
redis key = ok (if text_eq key stored.key then some stored.value else none)

other_tenant :
    cache_get short_digest models converting redis question (codes "other") ≡ (none, miss)
unfolding cache_get cache_set
other_tenant = refl

broken_entry :
    cache_get short_digest models converting
      (λ key. ok (some (codes "{\"a\":1}")))
      question
      (codes "acme")
    ≡ (none, decode_error)
unfolding cache_get
broken_entry = refl

answers_itself : redis stored.key ≡ ok (some stored.value)
unfolding cache_set
answers_itself = refl

plain_payload : is_plain (payload reply) ≡ true
unfolding payload
plain_payload = refl

plain_question : is_plain (fingerprint models question) ≡ true
unfolding fingerprint
plain_question = refl

fixed_length : (t u : Text) → length (short_digest t) ≡ length (short_digest u)
fixed_length [] [] = refl
fixed_length [] (d ∷ u) = refl
fixed_length (c ∷ t) [] = refl
fixed_length (c ∷ t) (d ∷ u) = refl

cache_get-cache_set_example :
    cache_get short_digest models converting redis question (codes "acme")
    ≡ (some (as_cached reply), hit)
cache_get-cache_set_example =
    cache_get-cache_set short_digest models converting 60 question reply (codes "acme") redis
      plain_payload answers_itself

cache_key-SameRequest_example :
    SameRequest models models question question (codes "acme") (codes "acme")
cache_key-SameRequest_example =
    cache_key-SameRequest short_digest models models question question (codes "acme") (codes "acme")
      plain_question plain_question fixed_length (λ same. refl) refl
