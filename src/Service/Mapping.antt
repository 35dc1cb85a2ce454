-- ===== src/Service/Mapping.antt =====
-- What a client of the service can meet: `run` and `stream_chat` of app/core/domain/chat_service.py.
use llm_chat_platform.Base.{◌≡◌, ◌⊎◌, inl, inr, refl, true, false, Bool-cases, some, codes}
use llm_chat_platform.Provider.{
  ProviderError, Failure, Outcome, ProviderResult, ProviderPort, provider_error, timed_out,
  other_error, returned, raised,
}
use llm_chat_platform.Service.{
  provider_timeout, provider_execution, Response, answered, failed, ChatServiceResult,
  GenerationOutcome, generated, timed_out_call, refused_call, broken_call, is_timeout, answer_of,
  translate, run,
}

-- The provider ran too long, by its own account or by the clock of the service.
abbrev pub TimedOut : Failure → Type 0
TimedOut e =
    (e ≡ timed_out) ⊎ ((p : ProviderError) × (e ≡ provider_error p) × (is_timeout p.kind ≡ true))

-- How the call of a provider is told to the client and to the span.
pub data IsTranslated (call : Outcome ProviderResult)
    : Response ChatServiceResult → GenerationOutcome → Type 0 where
  answer :
      (r : ProviderResult)
      → call ≡ returned r
      → IsTranslated call
          (answered (record { assistant_message = answer_of r.content; provider_result = r }))
          generated
  too_long :
      (e : Failure)
      → call ≡ raised e
      → TimedOut e
      → IsTranslated call (failed provider_timeout) timed_out_call
  normalized :
      (p : ProviderError)
      → call ≡ raised (provider_error p)
      → is_timeout p.kind ≡ false
      → IsTranslated call (failed (provider_execution p.message)) refused_call
  hidden :
      (e : Failure)
      → call ≡ raised e
      → ((p : ProviderError) → ¬ (e ≡ provider_error p))
      → ¬ (e ≡ timed_out)
      → IsTranslated call
          (failed (provider_execution (codes "provider execution failed")))
          broken_call

translate-IsTranslated :
    (call o : Outcome ProviderResult) → call ≡ o → IsTranslated call (translate o).0 (translate o).1
unfolding translate
translate-IsTranslated call (returned r) eq = answer r eq
translate-IsTranslated call (raised timed_out) eq = too_long timed_out eq (inl refl)
translate-IsTranslated call (raised (provider_error p)) eq = elim (Bool-cases (is_timeout p.kind)) [
  | inl long ↦ rw long (too_long (provider_error p) eq (inr (p, refl, long)))
  | inr short ↦ rw short (normalized p eq short)
]
translate-IsTranslated call (raised (other_error n)) eq =
    hidden (other_error n) eq (λ p h. cc h) (λ h. cc h)

-- Once a provider is resolved, no exception of it passes the service: the answer is its content; a
-- time-out, by the service's clock or by the provider's account, is a ProviderTimeoutError; another
-- ProviderError is a ProviderExecutionError with its message; any other exception is one with a
-- fixed message; and the span records which it was.
pub run-IsTranslated :
    (provider : ProviderPort)
    → (response : Response ChatServiceResult) × (outcome : GenerationOutcome) × (run
          (returned provider)
        ≡ (response, some outcome))
      × IsTranslated provider.generate response outcome
unfolding run
run-IsTranslated provider =
    let (response, outcome) = translate provider.generate in
    (response, outcome, refl, translate-IsTranslated provider.generate provider.generate refl)
