-- ===== src/Factory.antt =====
-- Which provider object a decision builds: app/core/domain/provider_factory.py. A provider object
-- is the class with the settings that its constructor takes; credentials, the numbers of attempts
-- and the delays are copied from the settings and left out. `str.lower` and the blank test of
-- `str.strip` are parameters.
pub mod Agree
mod Tests
use llm_chat_platform.Base.{
  ℕ, Bool, true, false, not, ◌&&◌, ◌||◌, Option, none, some, Text, text_eq, codes, if◌then◌else◌,
  Result, ok, err, value_error, ◌>>=◌,
}
use llm_chat_platform.Routing.{
  RoutingContext, RoutingDecision, RoutingPolicy, static, heuristic, decide, is_given, value_of,
}

-- The settings that the factory reads.
pub record Settings : Type 0 where
  pub provider : Text
  pub fallback_provider : Option Text
  pub routing_policy : Text
  pub routing_shadow_policy : Option Text
  pub routing_shadow_mode_enabled : Bool
  pub routing_message_length_cheap_max : ℕ
  pub routing_estimated_tokens_smart_min : ℕ
  pub openai_api_key : Option Text
  pub openai_model : Text
  pub bedrock_region : Option Text
  pub bedrock_model : Option Text

pub data BuiltProvider : Type 0 where
  stub_provider : BuiltProvider
  openai_provider : (model : Text) → BuiltProvider
  bedrock_provider : (region model : Text) → BuiltProvider
  disabled : (provider_name reason : Text) → BuiltProvider
  resilient : (primary fallback : BuiltProvider) → BuiltProvider

-- `model_override or default`
abbrev pub or_default : Option Text → Text → Text
or_default o default = if is_given o then value_of o else default

unfoldable pub build_single_provider :
    (provider : Text) → Settings → (model_override : Option Text) → Result BuiltProvider
build_single_provider provider cfg model_override =
    if text_eq provider (codes "stub")
    then ok stub_provider
    else if text_eq provider (codes "openai")
    then (if is_given cfg.openai_api_key
        then ok (openai_provider (or_default model_override cfg.openai_model))
        else ok (disabled (codes "openai") (codes "OPENAI_API_KEY missing")))
    else if text_eq provider (codes "bedrock")
    then (if not (is_given cfg.bedrock_region)
        then ok (disabled (codes "bedrock") (codes "BEDROCK_REGION missing"))
        else if not (is_given cfg.bedrock_model)
        then ok (disabled (codes "bedrock") (codes "BEDROCK_MODEL missing"))
        else ok (
            bedrock_provider (value_of cfg.bedrock_region)
              (or_default model_override (value_of cfg.bedrock_model))))
    else err value_error

unfoldable pub model_for_provider : Text → Settings → Option Text
model_for_provider provider cfg =
    if text_eq provider (codes "openai")
    then some cfg.openai_model
    else if text_eq provider (codes "bedrock")
    then cfg.bedrock_model
    else none

module _ (lower : Text → Text) (is_blank : Text → Bool) where
  -- The end of both builders: the primary alone, or with another provider behind it.
  unfoldable pub with_fallback :
      (primary_name : Text)
      → Settings
      → (fallback_name fallback_model : Option Text) → BuiltProvider
      → Result BuiltProvider
  with_fallback primary_name cfg none model primary = ok primary
  with_fallback primary_name cfg (some name) model primary =
      if is_blank name || text_eq (lower name) primary_name
      then ok primary
      else (build_single_provider (lower name) cfg model >>= λ fallback.
          ok (resilient primary fallback))

  unfoldable pub build_provider : Settings → Result BuiltProvider
  build_provider cfg =
      build_single_provider (lower cfg.provider) cfg none
      >>= with_fallback (lower cfg.provider) cfg cfg.fallback_provider none

  -- `fallback_name.lower() if ... else None`
  abbrev pub fallback_name : Option Text → Option Text
  fallback_name none = none
  fallback_name (some name) = if is_blank name then none else some (lower name)

  abbrev pub fallback_model : Option Text → Settings → Option Text
  fallback_model none cfg = none
  fallback_model (some name) cfg = model_for_provider name cfg

  unfoldable pub build_named_routing_policy : Settings → (policy_name : Text) → RoutingPolicy
  build_named_routing_policy cfg policy_name =
      if text_eq policy_name (codes "heuristic")
      then heuristic record {
        primary_provider = lower cfg.provider;
        primary_model = model_for_provider (lower cfg.provider) cfg;
        fallback_provider = fallback_name cfg.fallback_provider;
        fallback_model = fallback_model (fallback_name cfg.fallback_provider) cfg;
        message_length_cheap_max = cfg.routing_message_length_cheap_max;
        estimated_tokens_smart_min = cfg.routing_estimated_tokens_smart_min;
      }
      else static record {
        provider = lower cfg.provider;
        model = model_for_provider (lower cfg.provider) cfg;
        fallback_provider = fallback_name cfg.fallback_provider;
        fallback_model = fallback_model (fallback_name cfg.fallback_provider) cfg;
      }

  unfoldable pub build_provider_for_decision : Settings → RoutingDecision → Result BuiltProvider
  build_provider_for_decision cfg decision =
      build_single_provider decision.provider cfg decision.model
      >>= with_fallback decision.provider cfg decision.fallback_provider decision.fallback_model

  -- The resolver of `build_provider_resolver`: the shadow policy only logs.
  unfoldable pub resolve : Settings → RoutingContext → Result BuiltProvider
  resolve cfg context =
      build_provider_for_decision cfg
        (decide (build_named_routing_policy cfg cfg.routing_policy) context)

-- `_build_shadow_policy`: the name of the policy that runs beside the active one.
unfoldable pub shadow_policy_name : Settings → Option Text
shadow_policy_name cfg =
    let named =
      or_default cfg.routing_shadow_policy (
        if text_eq cfg.routing_policy (codes "static")
        then codes "heuristic"
        else codes "static") in
    if not cfg.routing_shadow_mode_enabled
    then none
    else if text_eq named cfg.routing_policy
    then none
    else some named
