-- ===== src/Route/Sample.antt =====
-- A provider, a surrounding without faults and two requests, for runs at concrete values.
use llm_chat_platform.Base.{false, [], ◌∷◌, none, some, Text, codes, ℕ, ◌+◌, ◌==◌, err, other}
use llm_chat_platform.Base.Int.{pos}
use llm_chat_platform.Memory.{empty_memory}
use llm_chat_platform.Provider.{ProviderResult, ProviderPort, returned}
use llm_chat_platform.Route.{ChatRequest, Faults, Prepared, Environment, no_sources, prepare}

abbrev pub greeting : ProviderResult
greeting = record {
  content = codes "hello\n there";
  provider = codes "stub";
  model_version = codes "stub-1";
  prompt_version = codes "v1";
  input_tokens = some (pos 1);
  output_tokens = none;
  total_tokens = none;
  latency_ms = none;
  raw = none;
}

abbrev pub greeter : ProviderPort
greeter = record {
  label = codes "stub";
  generate = returned greeting;
  stream = some (
      returned (
        some record {
          chunks = codes "hello\n" ∷ codes " there" ∷ [];
          broken = none;
          final_result =
              returned (record { content = codes "hello\n there"; provider_result = greeting });
        }));
}

abbrev pub no_faults : Faults
no_faults = record {
  conversation_flush = false;
  conversation_load = false;
  user_flush = false;
  assistant_flush = false;
  commit = false;
  error_commit = false;
}

abbrev pub world : (tenant : Text) → (draw : ℕ) → Faults → Environment
world tenant draw faults = record {
  settings = record {
    chat_rag_augmentation_enabled = false;
    conversation_history_enabled = false;
    ebm25_enabled = false;
    chat_prompt_max_added_context_chars = 100;
    max_assistant_chars = 5;
    max_error_message_chars = 50;
    chat_response_cache_ttl_s = 60;
  };
  cache_settings = record {
    provider = codes "stub";
    fallback_provider = none;
    openai_model = codes "m";
    bedrock_model = none;
    bedrock_prompt_version = codes "v1";
    stub_provider_mode = codes "ok";
  };
  sha256 = λ t. codes "0";
  convert = record { str_of = λ v. codes "None"; int_of = λ v. none };
  is_space = λ c. c == 32;
  tenant = tenant;
  fresh = record {
    conversation = draw;
    user_message = draw;
    assistant_message = draw;
    user_sequence = draw;
    assistant_sequence = draw + 2;
    usage_event = draw;
  };
  faults = faults;
  elapsed_ms = 3;
  error_provider = codes "stub";
  redis = λ key. err (other 0);
  resolve = λ stream messages metadata. returned greeter;
  failure_text = λ e. codes "failure";
  db_error_text = codes "down";
}

abbrev pub first_request : ChatRequest
first_request = record { conversation_id = none; message = codes "hi" }

abbrev pub next_request : ChatRequest
next_request = record { conversation_id = some 7; message = codes "more" }

abbrev pub acme : Environment
acme = world (codes "acme") 7 no_faults

abbrev pub asked : ChatRequest → Prepared
asked request = prepare acme.settings request no_sources empty_memory
