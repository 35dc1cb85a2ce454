-- ===== src/Service/Tests.antt =====
-- An answer over a provider that breaks off, and the theorems there.
use llm_chat_platform.Base.{◌≡◌, refl, none, some, [], ◌∷◌, codes}
use llm_chat_platform.Provider.{
  ProviderResult, ProviderPort, provider_error, provider_error_of, upstream, timeout, returned,
  raised,
}
use llm_chat_platform.Resilient.{stream}
use llm_chat_platform.Service.{
  Response, answered, failed, provider_timeout, ChatServiceResult, ChatServiceStreamSession,
  GenerationOutcome, timed_out_call, answer_of, run, stream_chat,
}
use llm_chat_platform.Service.Mapping.{IsTranslated, run-IsTranslated}
use llm_chat_platform.Service.Delivery.{IsFromOne, resilient_port, stream_chat-IsFromOne}

abbrev greeting : ProviderResult
greeting = record {
  content = codes "hello";
  provider = codes "stub";
  model_version = codes "stub-1";
  prompt_version = codes "stub-prompt-1";
  input_tokens = none;
  output_tokens = none;
  total_tokens = none;
  latency_ms = none;
  raw = none;
}

abbrev down : ProviderPort
down = record {
  label = codes "openai";
  generate = raised (provider_error (provider_error_of timeout (codes "slow") (codes "openai")));
  stream =
      some (raised (provider_error (provider_error_of upstream (codes "down") (codes "openai"))));
}

abbrev backup : ProviderPort
backup = record {
  label = codes "stub";
  generate = returned greeting;
  stream = some (
      returned (
        some record {
          chunks = codes "hel" ∷ codes "lo" ∷ [];
          broken = none;
          final_result = returned (record { content = codes "hello"; provider_result = greeting });
        }));
}

abbrev session : ChatServiceStreamSession
session = record {
  chunks = codes "hel" ∷ codes "lo" ∷ [];
  broken = none;
  final_result = returned record {
    assistant_message = answer_of (codes "hello");
    provider_result = some (record { content = codes "hello"; provider_result = greeting });
  };
}

timeout_told : run (returned down) ≡ (failed provider_timeout, some timed_out_call)
unfolding run
timeout_told = refl

stream_down :
    stream_chat (returned (resilient_port down backup)) (returned backup) ≡ answered session
unfolding stream_chat stream
stream_down = refl

run-IsTranslated_example :
    (response : Response ChatServiceResult) × (outcome : GenerationOutcome) × (run (returned down)
      ≡ (response, some outcome))
    × IsTranslated down.generate response outcome
run-IsTranslated_example = run-IsTranslated down

stream_chat-IsFromOne_example : IsFromOne down backup (returned backup) session.chunks
stream_chat-IsFromOne_example =
    stream_chat-IsFromOne down backup (returned backup) session stream_down
