-- ===== src/Factory/Agree.antt =====
-- Routing keeps the configured provider: app/core/domain/provider_factory.py.
use llm_chat_platform.Base.{
  ◌≡◌, refl, ap, fun_ext, ◌>>=◌, Bool, true, false, Bool-cases, inl, inr, Option, none, some, Text,
  text_eq, codes, if◌then◌else◌,
}
use llm_chat_platform.Routing.{
  RoutingContext, RoutingDecision, is_given, value_of, decide_static, decide_heuristic,
}
use llm_chat_platform.Factory.{
  Settings, build_single_provider, model_for_provider, build_provider, build_named_routing_policy,
  build_provider_for_decision, resolve, with_fallback, fallback_name, fallback_model, BuiltProvider,
}

if_same : {A : Type 0} (b : Bool) (x : A) → (if b then x else x) ≡ x
if_same true x = refl
if_same false x = refl

-- The model that a policy names for a provider is the one that the provider has anyway.
build_single_provider-model :
    (name : Text) (cfg : Settings)
    → build_single_provider name cfg (model_for_provider name cfg)
      ≡ build_single_provider name cfg none
unfolding build_single_provider model_for_provider
build_single_provider-model name cfg = elim (Bool-cases (text_eq name (codes "stub"))) [
  | inl stub ↦ rw stub refl
  | inr not_stub ↦ elim (Bool-cases (text_eq name (codes "openai"))) [
    | inl openai ↦
        rw (not_stub, openai, if_same (is_given (some cfg.openai_model)) cfg.openai_model) refl
    | inr not_openai ↦ elim (Bool-cases (text_eq name (codes "bedrock"))) [
      | inl bedrock ↦
          rw
            (
              not_stub,
              not_openai,
              bedrock,
              if_same (is_given cfg.bedrock_model) (value_of cfg.bedrock_model),
            )
            refl
      | inr not_bedrock ↦ rw (not_stub, not_openai, not_bedrock) refl
    ]
  ]
]

module _ (lower : Text → Text) (is_blank : Text → Bool)
    (lower_twice : (t : Text) → lower (lower t) ≡ lower t)
    (blank_lower : (t : Text) → is_blank (lower t) ≡ is_blank t) where
  with_fallback-model :
      (name : Text) (cfg : Settings) (fallback : Option Text) (primary : BuiltProvider)
      → with_fallback lower is_blank name cfg
          (fallback_name lower is_blank fallback)
          (fallback_model lower is_blank (fallback_name lower is_blank fallback) cfg)
          primary
        ≡ with_fallback lower is_blank name cfg fallback none primary
  unfolding with_fallback
  with_fallback-model name cfg none primary = refl
  with_fallback-model name cfg (some other) primary = elim (Bool-cases (is_blank other)) [
    | inl blank ↦ rw blank refl
    | inr given ↦
        rw
          (
            given,
            blank_lower other,
            given,
            lower_twice other,
            build_single_provider-model (lower other) cfg,
          )
          refl
  ]

  build_provider_for_decision-agrees :
      (cfg : Settings) (d : RoutingDecision)
      → d.provider ≡ lower cfg.provider
      → d.model ≡ model_for_provider (lower cfg.provider) cfg
      → d.fallback_provider ≡ fallback_name lower is_blank cfg.fallback_provider
      → d.fallback_model
        ≡ fallback_model lower is_blank (fallback_name lower is_blank cfg.fallback_provider) cfg
      → build_provider_for_decision lower is_blank cfg d ≡ build_provider lower is_blank cfg
  unfolding build_provider build_provider_for_decision
  build_provider_for_decision-agrees cfg d h1 h2 h3 h4 =
      rw (h1, h2, h3, h4, build_single_provider-model (lower cfg.provider) cfg)
        (ap (λ f. build_single_provider (lower cfg.provider) cfg none >>= f)
          (fun_ext (with_fallback-model (lower cfg.provider) cfg cfg.fallback_provider)))

  -- Routing keeps the configured provider of a streamed request, under either policy: with a
  -- `lower` that is idempotent and keeps blank texts blank, the resolver builds the very provider
  -- that `build_provider` builds, or raises as it does.
  pub resolve-stream :
      (cfg : Settings) (context : RoutingContext)
      → context.stream ≡ true
      → resolve lower is_blank cfg context ≡ build_provider lower is_blank cfg
  unfolding resolve build_named_routing_policy decide_static decide_heuristic
  resolve-stream cfg context streamed =
      elim (Bool-cases (text_eq cfg.routing_policy (codes "heuristic"))) [
        | inl heuristic ↦
            rw (heuristic, streamed) (build_provider_for_decision-agrees cfg _ refl refl refl refl)
        | inr static ↦ rw static (build_provider_for_decision-agrees cfg _ refl refl refl refl)
      ]
