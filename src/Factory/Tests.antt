-- ===== src/Factory/Tests.antt =====
-- A streamed request under the heuristic policy, and the theorem there. Lower-casing is that of the
-- ASCII letters.
use llm_chat_platform.Base.{
  ◌≡◌, refl, ℕ, ◌+◌, true, false, ◌&&◌, [], ◌∷◌, some, none, Text, codes, leb, is_nil, map,
  if◌then◌else◌, ok, arith,
}
use llm_chat_platform.Routing.{RoutingContext}
use llm_chat_platform.Factory.{
  Settings, build_provider, resolve, openai_provider, stub_provider, resilient,
  build_single_provider, with_fallback,
}
use llm_chat_platform.Factory.Agree.{resolve-stream}

abbrev lower_letter : ℕ → ℕ
lower_letter c = if leb 65 c && leb c 90 then c + 32 else c

abbrev lower_text : Text → Text
lower_text t = map lower_letter t

lower_letter_twice : (c : ℕ) → lower_letter (lower_letter c) ≡ lower_letter c
lower_letter_twice c = ground arith

lower_text_twice : (t : Text) → lower_text (lower_text t) ≡ lower_text t
lower_text_twice [] = refl
lower_text_twice (c ∷ t) = rw (lower_letter_twice c, lower_text_twice t) refl

is_nil-lower_text : (t : Text) → is_nil (lower_text t) ≡ is_nil t
is_nil-lower_text [] = refl
is_nil-lower_text (c ∷ t) = refl

abbrev configured : Settings
configured = record {
  provider = codes "OpenAI";
  fallback_provider = some (codes "stub");
  routing_policy = codes "heuristic";
  routing_shadow_policy = none;
  routing_shadow_mode_enabled = false;
  routing_message_length_cheap_max = 80;
  routing_estimated_tokens_smart_min = 120;
  openai_api_key = some (codes "key");
  openai_model = codes "gpt-4.1-mini";
  bedrock_region = none;
  bedrock_model = none;
}

abbrev streamed : RoutingContext
streamed = record {
  stream = true;
  message_length = 5;
  estimated_tokens = 2;
  primary_provider_available = true;
}

built :
    build_provider lower_text is_nil configured
    ≡ ok (resilient (openai_provider (codes "gpt-4.1-mini")) stub_provider)
unfolding build_provider build_single_provider with_fallback
built = refl

resolve-stream_example :
    resolve lower_text is_nil configured streamed ≡ build_provider lower_text is_nil configured
resolve-stream_example =
    resolve-stream lower_text is_nil lower_text_twice is_nil-lower_text configured streamed refl
