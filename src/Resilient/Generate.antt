-- ===== src/Resilient/Generate.antt =====
-- When the fallback answers, and what is logged: `generate` of
-- app/core/providers/resilient_provider.py.
use llm_chat_platform.Base.{
  ◌≡◌, refl, Bool, false, Bool-cases, Option, none, some, List, [], ◌∷◌, ◌++◌, Text, if◌then◌else◌,
  inl, inr,
}
use llm_chat_platform.Provider.{
  Outcome, ProviderResult, ProviderPort, returned, raised, Outcome-cases,
}
use llm_chat_platform.Resilient.{
  LogEntry, fallback_logged, final_logged, is_retryable_provider_error, failure_kind,
  result_provider, generate,
}

-- The call failed in a way that another provider may repair.
abbrev pub needs_fallback : {A : Type 0} → Outcome A → Bool
needs_fallback (returned r) = false
needs_fallback (raised e) = is_retryable_provider_error e

abbrev pub failure_of : {A : Type 0} → Outcome A → Option Text
failure_of (returned r) = none
failure_of (raised e) = some (failure_kind e)

-- The entries before the final one.
abbrev pub fallback_entries : {A : Type 0} → Outcome A → (stream : Bool) → List LogEntry
fallback_entries (returned r) stream = []
fallback_entries (raised e) stream =
    if is_retryable_provider_error e then fallback_logged (failure_kind e) stream ∷ [] else []

pub record IsReported (primary fallback : ProviderPort) (outcome : Outcome ProviderResult)
    (log : List LogEntry) : Type 0 where
  pub answer :
      outcome ≡ (if needs_fallback primary.generate then fallback.generate else primary.generate)
  pub final_provider : Text
  pub reported :
      log
      ≡ fallback_entries primary.generate false
        ++ final_logged final_provider
            (needs_fallback primary.generate)
            (if needs_fallback primary.generate then 2 else 1)
            false
            (failure_of outcome)
            false
          ∷ []

-- The answer is the fallback's if the primary failed in a retryable way and the primary's
-- otherwise; the log has a fallback entry in the first case alone, then exactly one final entry,
-- with the number of attempts and with a failure if and only if the call raises it.
pub generate-IsReported :
    (primary fallback : ProviderPort)
    → let (outcome, log) = generate primary fallback in IsReported primary fallback outcome log
unfolding generate
generate-IsReported primary fallback = elim (Outcome-cases primary.generate) [
  | inl (r, eq) ↦ record {
    answer = rw eq refl;
    final_provider = result_provider r.provider primary.label;
    reported = rw eq refl;
  }
  | inr (e, eq) ↦ elim (Bool-cases (is_retryable_provider_error e)) [
    | inr final ↦ record {
      answer = rw (eq, final) refl;
      final_provider = primary.label;
      reported = rw (eq, final) refl;
    }
    | inl again ↦ elim (Outcome-cases fallback.generate) [
      | inl (r, eq2) ↦ record {
        answer = rw (eq, again, eq2) refl;
        final_provider = result_provider r.provider fallback.label;
        reported = rw (eq, again, eq2) refl;
      }
      | inr (f, eq2) ↦ record {
        answer = rw (eq, again, eq2) refl;
        final_provider = fallback.label;
        reported = rw (eq, again, eq2) refl;
      }
    ]
  ]
]
