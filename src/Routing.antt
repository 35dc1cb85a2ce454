-- ===== src/Routing.antt =====
-- The choice of a provider for one request: app/core/domain/routing/ and
-- app/services/routing_signals.py. A request's id takes no part and is left out; `str.strip` stands
-- on `is_space`, the Unicode white space of the standard library.
pub mod Decision
pub mod Signals
mod Tests
use llm_chat_platform.Base.{
  ℕ, suc, ◌+◌, ◌/◌, max, Bool, true, false, not, ◌&&◌, List, [], ◌∷◌, Option, none, some, Text,
  text_eq, codes, length, is_nil, strip, leb, if◌then◌else◌,
}
use llm_chat_platform.Chat.{ChatMessage, is_user}

pub data ModelTier : Type 0 where
  cheap balanced smart : ModelTier

pub record RoutingContext : Type 0 where
  pub stream : Bool
  pub message_length : ℕ
  pub estimated_tokens : ℕ
  pub primary_provider_available : Bool

pub record RoutingDecision : Type 0 where
  pub provider : Text
  pub model : Option Text
  pub model_tier : ModelTier
  pub rationale : Text
  pub fallback_provider : Option Text
  pub fallback_model : Option Text
  pub policy_name : Text
  pub policy_version : Text

pub record StaticRoutingPolicy : Type 0 where
  pub provider : Text
  pub model : Option Text
  pub fallback_provider : Option Text
  pub fallback_model : Option Text

unfoldable pub decide_static : StaticRoutingPolicy → RoutingContext → RoutingDecision
decide_static p context = record {
  provider = p.provider;
  model = p.model;
  model_tier = balanced;
  rationale = codes "static_default";
  fallback_provider = p.fallback_provider;
  fallback_model = p.fallback_model;
  policy_name = codes "static";
  policy_version = codes "v1";
}

pub record HeuristicRoutingPolicy : Type 0 where
  pub primary_provider : Text
  pub primary_model : Option Text
  pub fallback_provider : Option Text
  pub fallback_model : Option Text
  pub message_length_cheap_max : ℕ
  pub estimated_tokens_smart_min : ℕ

abbrev pub static_policy : HeuristicRoutingPolicy → StaticRoutingPolicy
static_policy p = record {
  provider = p.primary_provider;
  model = p.primary_model;
  fallback_provider = p.fallback_provider;
  fallback_model = p.fallback_model;
}

-- The truth of an optional string, and its value where it is true.
abbrev pub is_given : Option Text → Bool
is_given none = false
is_given (some t) = not (is_nil t)

abbrev pub value_of : Option Text → Text
value_of none = []
value_of (some t) = t

abbrev pub is_cheap_prompt : HeuristicRoutingPolicy → RoutingContext → Bool
is_cheap_prompt p context = leb context.message_length p.message_length_cheap_max

abbrev pub is_smart_prompt : HeuristicRoutingPolicy → RoutingContext → Bool
is_smart_prompt p context = leb p.estimated_tokens_smart_min context.estimated_tokens

-- A decision of `heuristic` `v1` for the primary, and one for the fallback.
abbrev pub on_primary : HeuristicRoutingPolicy → ModelTier → (rationale : Text) → RoutingDecision
on_primary p tier rationale = record {
  provider = p.primary_provider;
  model = p.primary_model;
  model_tier = tier;
  rationale = rationale;
  fallback_provider = p.fallback_provider;
  fallback_model = p.fallback_model;
  policy_name = codes "heuristic";
  policy_version = codes "v1";
}

abbrev pub on_fallback : HeuristicRoutingPolicy → ModelTier → (rationale : Text) → RoutingDecision
on_fallback p tier rationale = record {
  provider = value_of p.fallback_provider;
  model = p.fallback_model;
  model_tier = tier;
  rationale = rationale;
  fallback_provider = some p.primary_provider;
  fallback_model = p.primary_model;
  policy_name = codes "heuristic";
  policy_version = codes "v1";
}

unfoldable pub decide_heuristic : HeuristicRoutingPolicy → RoutingContext → RoutingDecision
unfolding decide_static
decide_heuristic p context =
    if context.stream
    then (let d = decide_static (static_policy p) context in
        record {
          provider = d.provider;
          model = d.model;
          model_tier = d.model_tier;
          rationale = codes "heuristic_stream_safe";
          fallback_provider = d.fallback_provider;
          fallback_model = d.fallback_model;
          policy_name = codes "heuristic";
          policy_version = codes "v1";
        })
    else if not context.primary_provider_available && is_given p.fallback_provider
    then on_fallback p smart (codes "heuristic_primary_unavailable")
    else if is_cheap_prompt p context
    then on_primary p cheap (codes "heuristic_message_length_cheap")
    else if is_given p.fallback_provider && is_smart_prompt p context
    then on_fallback p smart (codes "heuristic_estimated_tokens_smart")
    else on_primary p balanced (codes "heuristic_default")

-- A policy object, with its `decide`.
pub data RoutingPolicy : Type 0 where
  static : StaticRoutingPolicy → RoutingPolicy
  heuristic : HeuristicRoutingPolicy → RoutingPolicy

abbrev pub decide : RoutingPolicy → RoutingContext → RoutingDecision
decide (static p) context = decide_static p context
decide (heuristic p) context = decide_heuristic p context

-- `messages[-1].content if messages else ""`, and the last user message before it.
abbrev pub last_content : List ChatMessage → Text
last_content [] = []
last_content (m ∷ []) = m.content
last_content (m ∷ n ∷ ms) = last_content (n ∷ ms)

abbrev pub last_user : List ChatMessage → Option Text
last_user [] = none
last_user (m ∷ ms) = elim (last_user ms) [
  | some t ↦ some t
  | none ↦ if is_user m.role then some m.content else none
]

unfoldable pub last_user_message : List ChatMessage → Text
last_user_message ms = elim (last_user ms) [ some t ↦ t | none ↦ last_content ms ]

module _ (is_space : ℕ → Bool) where
  unfoldable pub estimate_tokens : Text → ℕ
  estimate_tokens t =
      if is_nil (strip is_space t) then 0 else max 1 ((length (strip is_space t) + 3) / 4)

  abbrev pub routing_context : (available stream : Bool) → List ChatMessage → RoutingContext
  routing_context available stream messages = record {
    stream = stream;
    message_length = length (last_user_message messages);
    estimated_tokens = estimate_tokens (last_user_message messages);
    primary_provider_available = available;
  }
