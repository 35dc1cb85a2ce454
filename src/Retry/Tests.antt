-- ===== src/Retry/Tests.antt =====
-- A call that succeeds at its third attempt, and the theorem there.
use llm_chat_platform.Base.{◌≡◌, refl, ℕ, ◌≤◌, Bool, true, [], ◌∷◌, leb, if◌then◌else◌, arith}
use llm_chat_platform.Provider.{Failure, Outcome, returned, raised, timed_out}
use llm_chat_platform.Retry.{RetryPolicy, retry_async}
use llm_chat_platform.Retry.Attempts.{IsRun, retry_async-IsRun}

abbrev third : ℕ → Outcome ℕ
third attempt = if leb attempt 2 then raised timed_out else returned attempt

abbrev always : Failure → Bool
always e = true

abbrev policy : RetryPolicy
policy = record { max_attempts = 4; base_delay_ms = 100; max_delay_ms = 150 }

abbrev no_jitter : (bound : ℕ) → ℕ
no_jitter bound = 0

run_third : retry_async no_jitter third always policy ≡ (returned 3, 100 ∷ 150 ∷ [])
unfolding retry_async
run_third = refl

no_jitter-within : (bound : ℕ) → no_jitter bound ≤ bound
no_jitter-within bound = omega arith

retry_async-IsRun_example :
    IsRun no_jitter no_jitter-within third always policy 1
      (retry_async no_jitter third always policy)
retry_async-IsRun_example =
    retry_async-IsRun no_jitter no_jitter-within third always policy (omega arith)
