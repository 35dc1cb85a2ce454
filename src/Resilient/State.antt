-- ===== src/Resilient/State.antt =====
-- The state, the queue and the log of a stream: the helpers and `_ResilientStreamState` of
-- app/core/providers/resilient_provider.py.
use llm_chat_platform.Base.{
  ℕ, Bool, true, false, ◌||◌, Option, none, some, List, [], ◌∷◌, ◌++◌, Text, if◌then◌else◌,
}
use llm_chat_platform.Provider.{
  ProviderErrorKind, Failure, Outcome, ProviderStreamResult, ProviderStreamSession, kind_value,
  rate_limit, upstream, timeout, unknown, provider_error, timed_out, other_error, raised,
}

-- `kind in (rate_limit, upstream, timeout)`
abbrev pub is_transient : ProviderErrorKind → Bool
is_transient rate_limit = true
is_transient upstream = true
is_transient timeout = true
is_transient _ = false

abbrev pub is_retryable_provider_error : Failure → Bool
is_retryable_provider_error (provider_error e) = e.retryable || is_transient e.kind
is_retryable_provider_error timed_out = false
is_retryable_provider_error (other_error n) = false

abbrev pub failure_kind : Failure → Text
failure_kind (provider_error e) = kind_value e.kind
failure_kind timed_out = kind_value unknown
failure_kind (other_error n) = kind_value unknown

-- `_result_provider`, on the provider of a result.
abbrev pub result_provider : (provider default : Text) → Text
result_provider [] default = default
result_provider (c ∷ cs) default = c ∷ cs

-- The two records that the provider logs; `provider.final` is a warning when it has a failure.
pub data LogEntry : Type 0 where
  fallback_logged : (failure : Text) (stream : Bool) → LogEntry
  final_logged :
      (final_provider : Text) (fallback_used : Bool) (attempts_used : ℕ) (stream : Bool)
      (failure : Option Text) (first_token_emitted : Bool)
      → LogEntry

pub data Item : Type 0 where
  chunk : Text → Item
  stream_end : Item

-- `_ResilientStreamState`
pub record ResilientStreamState : Type 0 where
  pub queue : List Item
  pub final_result : Option ProviderStreamResult
  pub error : Option Failure
  pub first_chunk_emitted : Bool
  pub first_token_emitted : Bool
  pub fallback_used : Bool
  pub attempts_used : ℕ
  pub final_provider : Option Text
  pub failure : Option Text

abbrev pub initial_state : (fallback_used : Bool) (attempts_used : ℕ) → ResilientStreamState
initial_state fallback_used attempts_used = record {
  queue = [];
  final_result = none;
  error = none;
  first_chunk_emitted = false;
  first_token_emitted = false;
  fallback_used = fallback_used;
  attempts_used = attempts_used;
  final_provider = none;
  failure = none;
}

-- The body of the loop of `_consume_session`.
abbrev pub put_chunk : ResilientStreamState → Text → ResilientStreamState
put_chunk s c = record s {
  first_token_emitted = if s.fallback_used then s.first_token_emitted else true;
  first_chunk_emitted = true;
  queue = s.queue ++ chunk c ∷ [];
}

abbrev pub put_chunks : ResilientStreamState → List Text → ResilientStreamState
put_chunks s [] = s
put_chunks s (c ∷ cs) = put_chunks (put_chunk s c) cs

abbrev pub outcome_of : ProviderStreamSession → Outcome ProviderStreamResult
outcome_of session = elim session.broken [ none ↦ session.final_result | some e ↦ raised e ]

-- `_consume_session`: the state, and the result or the exception.
unfoldable pub consume_session :
    ProviderStreamSession
    → ResilientStreamState
    → ResilientStreamState × Outcome ProviderStreamResult
consume_session session s = (put_chunks s session.chunks, outcome_of session)
