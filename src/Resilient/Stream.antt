-- ===== src/Resilient/Stream.antt =====
-- How a stream starts and what the client receives: `stream` of
-- app/core/providers/resilient_provider.py.
use llm_chat_platform.Base.{◌≡◌, refl, true, false, Bool-cases, Option, none, some, ◌⊎◌, inl, inr}
use llm_chat_platform.Provider.{
  Failure, Outcome, ProviderStreamSession, ProviderPort, returned, raised,
}
use llm_chat_platform.Resilient.{
  outcome_of, is_retryable_provider_error, start_fallback, start, stream,
}
use llm_chat_platform.Resilient.Served.{IsServed, build-used, build-IsServed}

-- The ways in which `stream` ends.
pub data IsStreamed (primary fallback : ProviderPort)
    : Outcome (Option ProviderStreamSession) → Type 0 where
  served :
      (session given : ProviderStreamSession)
      → primary.stream ≡ some (returned (some session))
      → IsServed fallback session given
      → IsStreamed primary fallback (returned (some given))
  started_over :
      (e : Failure) (second given : ProviderStreamSession)
      → primary.stream ≡ some (raised e)
      → is_retryable_provider_error e ≡ true
      → fallback.stream ≡ some (returned (some second))
      → given.chunks ≡ second.chunks
      → given.final_result ≡ outcome_of second
      → IsStreamed primary fallback (returned (some given))
  not_streaming :
      (primary.stream ≡ none) ⊎ (primary.stream ≡ some (returned none))
      → IsStreamed primary fallback (returned none)
  cannot_start_over :
      (e : Failure)
      → primary.stream ≡ some (raised e)
      → is_retryable_provider_error e ≡ true
      → (fallback.stream ≡ none) ⊎ (fallback.stream ≡ some (returned none))
      → IsStreamed primary fallback (returned none)
  refused :
      (e : Failure)
      → primary.stream ≡ some (raised e)
      → is_retryable_provider_error e ≡ false
      → IsStreamed primary fallback (raised e)
  failed_to_start :
      (e f : Failure)
      → primary.stream ≡ some (raised e)
      → is_retryable_provider_error e ≡ true
      → fallback.stream ≡ some (raised f)
      → IsStreamed primary fallback (raised f)

start_fallback-IsStreamed :
    (primary fallback : ProviderPort) (e : Failure)
    (o : Option (Outcome (Option ProviderStreamSession)))
    → primary.stream ≡ some (raised e)
    → is_retryable_provider_error e ≡ true
    → fallback.stream ≡ o
    → IsStreamed primary fallback (start_fallback primary fallback e o).0
unfolding start_fallback
start_fallback-IsStreamed primary fallback e none eq h eq2 = cannot_start_over e eq h (inl eq2)
start_fallback-IsStreamed primary fallback e (some (returned none)) eq h eq2 =
    cannot_start_over e eq h (inr eq2)
start_fallback-IsStreamed primary fallback e (some (raised f)) eq h eq2 =
    failed_to_start e f eq h eq2
start_fallback-IsStreamed primary fallback e (some (returned (some second))) eq h eq2 =
    let (chunks, final) = build-used primary fallback second in
    started_over e second _ eq h eq2 chunks final

start-IsStreamed :
    (primary fallback : ProviderPort) (o : Option (Outcome (Option ProviderStreamSession)))
    → primary.stream ≡ o
    → IsStreamed primary fallback (start primary fallback o).0
unfolding start
start-IsStreamed primary fallback none eq = not_streaming (inl eq)
start-IsStreamed primary fallback (some (returned none)) eq = not_streaming (inr eq)
start-IsStreamed primary fallback (some (returned (some session))) eq =
    served session _ eq (build-IsServed primary fallback session)
start-IsStreamed primary fallback (some (raised e)) eq =
    elim (Bool-cases (is_retryable_provider_error e)) [
      | inr final ↦ rw final (refused e eq final)
      | inl again ↦
          rw again (start_fallback-IsStreamed primary fallback e fallback.stream eq again refl)
    ]

-- A stream never mixes two sessions: the client reads the chunks and the final result of the
-- primary's session, or, when that failed in a retryable way before any chunk, those of the
-- fallback's, or else no chunk and the failure; it has no session exactly in the cases named here.
pub stream-IsStreamed :
    (primary fallback : ProviderPort) → IsStreamed primary fallback (stream primary fallback).0
unfolding stream
stream-IsStreamed primary fallback = start-IsStreamed primary fallback primary.stream refl
