-- ===== src/Routing/Decision.antt =====
-- Which provider a policy chooses: app/core/domain/routing/heuristic_routing_policy.py.
use llm_chat_platform.Base.{◌≡◌, Bool, not, ◌&&◌, ◌||◌, some, if◌then◌else◌, arith}
use llm_chat_platform.Routing.{
  RoutingContext, RoutingDecision, HeuristicRoutingPolicy, is_given, value_of, is_cheap_prompt,
  is_smart_prompt, decide_heuristic,
}

-- A fallback is there, the request is not streamed, and the primary is unavailable or the prompt is
-- not cheap but smart.
abbrev pub prefers_fallback : HeuristicRoutingPolicy → RoutingContext → Bool
prefers_fallback p context =
    not context.stream
    && (is_given p.fallback_provider
        && (not context.primary_provider_available
            || (not (is_cheap_prompt p context) && is_smart_prompt p context)))

-- The decision names the two providers of the policy with their models, in one order or the other.
pub record IsChoice (p : HeuristicRoutingPolicy) (on_second : Bool) (d : RoutingDecision)
    : Type 0 where
  pub provider :
      d.provider ≡ (if on_second then value_of p.fallback_provider else p.primary_provider)
  pub model : d.model ≡ (if on_second then p.fallback_model else p.primary_model)
  pub second :
      d.fallback_provider ≡ (if on_second then some p.primary_provider else p.fallback_provider)
  pub second_model : d.fallback_model ≡ (if on_second then p.primary_model else p.fallback_model)

-- The heuristic policy sends a request to the fallback exactly when a fallback is configured, the
-- request is not streamed, and the primary is unavailable or the prompt is above the cheap length
-- and at least the smart number of tokens; the other provider, with its model, is the next to try.
pub decide_heuristic-IsChoice :
    (p : HeuristicRoutingPolicy) (context : RoutingContext)
    → IsChoice p (prefers_fallback p context) (decide_heuristic p context)
unfolding decide_heuristic
decide_heuristic-IsChoice p context = record {
  provider = ground arith;
  model = ground arith;
  second = ground arith;
  second_model = ground arith;
}
