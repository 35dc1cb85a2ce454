-- ===== src/Routing/Tests.antt =====
-- A policy's decisions and a request's signals, and the theorems there.
use llm_chat_platform.Base.{◌≡◌, refl, ℕ, Bool, true, false, List, [], ◌∷◌, some, codes, ◌==◌}
use llm_chat_platform.Chat.{ChatMessage, user, assistant}
use llm_chat_platform.Routing.{
  RoutingContext, HeuristicRoutingPolicy, decide_heuristic, routing_context, estimate_tokens,
  last_user_message,
}
use llm_chat_platform.Routing.Decision.{IsChoice, prefers_fallback, decide_heuristic-IsChoice}

abbrev blank : ℕ → Bool
blank c = c == 32

abbrev policy : HeuristicRoutingPolicy
policy = record {
  primary_provider = codes "openai";
  primary_model = some (codes "small");
  fallback_provider = some (codes "bedrock");
  fallback_model = some (codes "large");
  message_length_cheap_max = 8;
  estimated_tokens_smart_min = 4;
}

abbrev asked : List ChatMessage
asked =
    record { role = user; content = codes " explain monads " }
    ∷ record { role = assistant; content = codes "no" }
    ∷ []

abbrev request : RoutingContext
request = routing_context blank true false asked

estimate : estimate_tokens blank (codes " explain monads ") ≡ 4
unfolding estimate_tokens
estimate = refl

chosen : (decide_heuristic policy request).provider ≡ codes "bedrock"
unfolding decide_heuristic estimate_tokens last_user_message
chosen = refl

decide_heuristic-IsChoice_example :
    IsChoice policy (prefers_fallback policy request) (decide_heuristic policy request)
decide_heuristic-IsChoice_example = decide_heuristic-IsChoice policy request
