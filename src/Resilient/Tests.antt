-- ===== src/Resilient/Tests.antt =====
-- A provider that breaks off and its fallback, and the theorems there.
use llm_chat_platform.Base.{◌≡◌, refl, true, false, none, some, [], ◌∷◌, codes}
use llm_chat_platform.Base.Int.{pos}
use llm_chat_platform.Provider.{
  ProviderResult, ProviderPort, provider_error, provider_error_of, rate_limit, returned, raised,
}
use llm_chat_platform.Resilient.{fallback_logged, final_logged, generate, stream}
use llm_chat_platform.Resilient.Generate.{IsReported, generate-IsReported}
use llm_chat_platform.Resilient.Stream.{IsStreamed, stream-IsStreamed}

abbrev answer : ProviderResult
answer = record {
  content = codes "hello";
  provider = codes "stub";
  model_version = codes "stub-1";
  prompt_version = codes "stub-prompt-1";
  input_tokens = some (pos 1);
  output_tokens = some (pos 1);
  total_tokens = some (pos 2);
  latency_ms = none;
  raw = none;
}

abbrev limited : ProviderPort
limited = record {
  label = codes "openai";
  generate =
      raised (provider_error (provider_error_of rate_limit (codes "slow down") (codes "openai")));
  stream = some (
      returned (
        some record {
          chunks = [];
          broken =
              some (
                provider_error (provider_error_of rate_limit (codes "slow down") (codes "openai")));
          final_result = returned (record { content = []; provider_result = answer });
        }));
}

abbrev stub : ProviderPort
stub = record {
  label = codes "stub";
  generate = returned answer;
  stream = some (
      returned (
        some record {
          chunks = codes "hel" ∷ codes "lo" ∷ [];
          broken = none;
          final_result = returned (record { content = codes "hello"; provider_result = answer });
        }));
}

generate_limited : generate limited stub ≡ (
  returned answer,
  fallback_logged (codes "rate_limit") false
      ∷ final_logged (codes "stub") true 2 false none false
      ∷ [],
)
unfolding generate
generate_limited = refl

stream_limited : stream limited stub ≡ (
  returned (
      some record {
        chunks = codes "hel" ∷ codes "lo" ∷ [];
        broken = none;
        final_result = returned (record { content = codes "hello"; provider_result = answer });
      }),
  fallback_logged (codes "rate_limit") true
      ∷ final_logged (codes "stub") true 2 true none false
      ∷ [],
)
unfolding stream
stream_limited = refl

generate-IsReported_example :
    IsReported limited stub (generate limited stub).0 (generate limited stub).1
generate-IsReported_example = generate-IsReported limited stub

stream-IsStreamed_example : IsStreamed limited stub (stream limited stub).0
stream-IsStreamed_example = stream-IsStreamed limited stub
