-- ===== src/Retry.antt =====
-- Retrying a call with growing delays: app/core/utils/retry.py. The random number is a parameter,
-- `jitter`, of which the code needs that it stays within the bound it is given; a run gives the
-- outcome and the delays slept, in milliseconds.
pub mod Attempts
mod Tests
use llm_chat_platform.Base.{
  ℕ, zero, suc, ◌+◌, ◌-◌, ◌*◌, ◌/◌, ◌^◌, min, max, Bool, true, false, not, ◌||◌, List, [], ◌∷◌, leb,
  if◌then◌else◌,
}
use llm_chat_platform.Provider.{Failure, Outcome, returned, raised, other_error}

pub record RetryPolicy : Type 0 where
  pub max_attempts : ℕ
  pub base_delay_ms : ℕ
  pub max_delay_ms : ℕ

module _ (jitter : (bound : ℕ) → ℕ) where
  unfoldable pub compute_backoff_ms : (attempt base_delay_ms max_delay_ms : ℕ) → ℕ
  compute_backoff_ms attempt base_delay_ms max_delay_ms =
      let capped = min (base_delay_ms * 2 ^ (attempt - 1)) max_delay_ms in
      capped + jitter (max 0 (capped / 4))

  module _ {A : Type 0} (op : (attempt : ℕ) → Outcome A) (should_retry : Failure → Bool)
      (policy : RetryPolicy) where
    -- The body of the loop, on what the attempt gives and the run of the attempts after it.
    unfoldable pub attempt_once :
        (attempt : ℕ) → Outcome A → Outcome A × List ℕ → Outcome A × List ℕ
    unfolding compute_backoff_ms
    attempt_once attempt (returned a) rest = (returned a, [])
    attempt_once attempt (raised e) rest =
        if leb policy.max_attempts attempt || not (should_retry e)
        then (raised e, [])
        else (rest.0, compute_backoff_ms attempt policy.base_delay_ms policy.max_delay_ms ∷ rest.1)

    -- `for attempt in range(attempt, attempt + remaining)`; the assertion after the loop fails.
    unfoldable pub retry_from : (remaining attempt : ℕ) → Outcome A × List ℕ
    unfolding attempt_once
    retry_from zero attempt = (raised (other_error 0), [])
    retry_from (suc remaining) attempt =
        attempt_once attempt (op attempt) (retry_from remaining (suc attempt))

    unfoldable pub retry_async : Outcome A × List ℕ
    unfolding retry_from
    retry_async = retry_from policy.max_attempts 1
