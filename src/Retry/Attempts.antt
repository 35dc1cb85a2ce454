-- ===== src/Retry/Attempts.antt =====
-- How often a call is made, and how long it waits: `retry_async` of app/core/utils/retry.py.
use llm_chat_platform.Base.{
  ◌≡◌, refl, ap, ◌∙◌, ==_iff, ◌==◌, ◌^◌, max, ℕ, zero, suc, ◌+◌, ◌-◌, ◌*◌, ◌/◌, ◌≤◌, ◌<◌, min, Bool,
  true, false, not, ◌||◌, Bool-cases, ◌⊎◌, inl, inr, List, All, length, leb, arith,
}
use llm_chat_platform.Provider.{Failure, Outcome, returned, raised}
use llm_chat_platform.Retry.{RetryPolicy, compute_backoff_ms, attempt_once, retry_from, retry_async}

module _ (jitter : (bound : ℕ) → ℕ) (within : (bound : ℕ) → jitter bound ≤ bound) where
  compute_backoff_ms-le :
      (attempt base limit : ℕ) → compute_backoff_ms jitter attempt base limit ≤ limit + limit / 4
  unfolding compute_backoff_ms
  compute_backoff_ms-le attempt base limit =
      let capped = min (base * 2 ^ (attempt - 1)) limit in
      omega (arith, within (max 0 (capped / 4)))

  module _ {A : Type 0} (op : (attempt : ℕ) → Outcome A) (should_retry : Failure → Bool)
      (policy : RetryPolicy) where
    -- A run from an attempt on: its last attempt decides, the ones before it failed in a way that
    -- may be retried, and between two attempts there is one bounded delay.
    pub record IsRun (start : ℕ) (run : Outcome A × List ℕ) : Type 0 where
      pub last : ℕ
      pub counted : last ≡ start + length run.1
      pub in_range : last ≤ policy.max_attempts
      pub decided : op last ≡ run.0
      pub final :
          ((a : A) × (run.0 ≡ returned a))
          ⊎ ((last ≡ policy.max_attempts)
              ⊎ ((e : Failure) × (run.0 ≡ raised e) × (should_retry e ≡ false)))
      pub earlier :
          (j : ℕ)
          → start ≤ j
          → j < last
          → (e : Failure) × (op j ≡ raised e) × (should_retry e ≡ true)
      pub delayed : All (λ d. d ≤ policy.max_delay_ms + policy.max_delay_ms / 4) run.1

    -- One attempt before a run.
    attempt_once-IsRun :
        (attempt : ℕ) (o : Outcome A) (rest : Outcome A × List ℕ)
        → op attempt ≡ o
        → attempt ≤ policy.max_attempts
        → (attempt < policy.max_attempts → IsRun (suc attempt) rest)
        → IsRun attempt (attempt_once jitter op should_retry policy attempt o rest)
    unfolding attempt_once
    attempt_once-IsRun attempt (returned a) rest eq h after = record {
      last = attempt;
      counted = omega arith;
      in_range = h;
      decided = eq;
      final = inl (a, refl);
      earlier = λ j lo hi. absurd (omega arith);
      delayed = tt;
    }
    attempt_once-IsRun attempt (raised e) rest eq h after =
        elim (Bool-cases (leb policy.max_attempts attempt || not (should_retry e))) [
          | inl stop ↦ rw stop record {
            last = attempt;
            counted = omega arith;
            in_range = h;
            decided = eq;
            final = inr (ends e stop h);
            earlier = λ j lo hi. absurd (omega arith);
            delayed = tt;
          }
          | inr again ↦
              let run = after (ground (arith, again)) in
              rw again record {
                last = run.last;
                counted = omega (arith, run.counted);
                in_range = run.in_range;
                decided = run.decided;
                final = run.final;
                earlier = λ j lo hi. elim (Bool-cases (j == attempt)) [
                  | inl same ↦ (e, ap op ((==_iff j attempt).0 same) ∙ eq, ground (arith, again))
                  | inr later ↦ run.earlier j (ground (arith, later, lo)) hi
                ];
                delayed = (
                  compute_backoff_ms-le attempt policy.base_delay_ms policy.max_delay_ms,
                  run.delayed,
                );
              }
        ]
      where
        ends :
            (e : Failure)
            → (leb policy.max_attempts attempt || not (should_retry e)) ≡ true
            → attempt ≤ policy.max_attempts
            → (attempt ≡ policy.max_attempts)
              ⊎ ((f : Failure) × (◌≡◌ {A = Outcome A} (raised e) (raised f))
                  × (should_retry f ≡ false))
        ends e stop h = elim (Bool-cases (leb policy.max_attempts attempt)) [
          | inl full ↦ inl (ground (arith, full, h))
          | inr room ↦ inr (e, refl, ground (arith, stop, room))
        ]

    retry_from-IsRun :
        (remaining attempt : ℕ)
        → remaining + attempt ≡ policy.max_attempts
        → IsRun attempt (retry_from jitter op should_retry policy (suc remaining) attempt)
    unfolding retry_from
    retry_from-IsRun zero attempt h =
        attempt_once-IsRun attempt (op attempt) _ refl (omega arith) (λ lt. absurd (omega arith))
    retry_from-IsRun (suc remaining) attempt h =
        attempt_once-IsRun attempt (op attempt) _ refl (omega arith)
          (λ lt. retry_from-IsRun remaining (suc attempt) (omega arith))

    -- With at least one attempt allowed and a jitter within its bound, the call is made for the
    -- attempts 1, 2, ... up to one that decides the outcome and is at most the last allowed; it
    -- decides by its success, by a failure that may not be retried, or as the last allowed, every
    -- attempt before it failed in a way that may be retried, and each delay is within the bound.
    pub retry_async-IsRun :
        1 ≤ policy.max_attempts → IsRun 1 (retry_async jitter op should_retry policy)
    unfolding retry_async
    retry_async-IsRun h = from policy.max_attempts refl h
      where
        from :
            (n : ℕ)
            → policy.max_attempts ≡ n
            → 1 ≤ n
            → IsRun 1 (retry_from jitter op should_retry policy n 1)
        from zero eq pos = absurd (omega arith)
        from (suc n) eq pos = retry_from-IsRun n 1 (omega arith)
