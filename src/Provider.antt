-- ===== src/Provider.antt =====
-- The provider port and its failures: app/core/domain/provider.py, provider_errors.py and
-- disabled_provider.py. A coroutine that a provider runs is what awaiting it gives.
use llm_chat_platform.Base.{
  ◌≡◌, refl, ◌⊎◌, inl, inr, ℕ, Bool, false, Option, none, List, ◌++◌, Text, codes,
}
use llm_chat_platform.Base.Int.{ℤ}
use llm_chat_platform.Json.{Value}

pub data ProviderErrorKind : Type 0 where
  timeout network auth rate_limit bad_request upstream unknown : ProviderErrorKind

-- `kind.value`
abbrev pub kind_value : ProviderErrorKind → Text
kind_value timeout = codes "timeout"
kind_value network = codes "network"
kind_value auth = codes "auth"
kind_value rate_limit = codes "rate_limit"
kind_value bad_request = codes "bad_request"
kind_value upstream = codes "upstream"
kind_value unknown = codes "unknown"

pub record ProviderError : Type 0 where
  pub kind : ProviderErrorKind
  pub message : Text
  pub provider : Text
  pub http_status : Option ℤ
  pub retryable : Bool
  pub error_code : Option Text

-- The dataclass's defaults.
abbrev pub provider_error_of : ProviderErrorKind → (message provider : Text) → ProviderError
provider_error_of kind message provider = record {
  kind = kind;
  message = message;
  provider = provider;
  http_status = none;
  retryable = false;
  error_code = none;
}

-- What an `except Exception` clause catches: a `ProviderError`, a time-out of `asyncio.wait_for`,
-- or an exception of another class.
pub data Failure : Type 0 where
  provider_error : ProviderError → Failure
  timed_out : Failure
  other_error : ℕ → Failure

pub data Outcome (A : Type 0) : Type 0 where
  returned : A → Outcome A
  raised : Failure → Outcome A

pub Outcome-cases :
    {A : Type 0} (o : Outcome A) → ((a : A) × (o ≡ returned a)) ⊎ ((e : Failure) × (o ≡ raised e))
Outcome-cases (returned a) = inl (a, refl)
Outcome-cases (raised e) = inr (e, refl)

abbrev pub is_retryable : Failure → Bool
is_retryable (provider_error e) = e.retryable
is_retryable timed_out = false
is_retryable (other_error n) = false

pub record ProviderResult : Type 0 where
  pub content : Text
  pub provider : Text
  pub model_version : Text
  pub prompt_version : Text
  pub input_tokens : Option ℤ
  pub output_tokens : Option ℤ
  pub total_tokens : Option ℤ
  pub latency_ms : Option ℕ
  pub raw : Option Value

pub record ProviderStreamResult : Type 0 where
  pub content : Text
  pub provider_result : ProviderResult

-- A session: the chunks that its iterator yields, the exception that ends the iteration if there is
-- one, and what awaiting `get_final_result` gives after it.
pub record ProviderStreamSession : Type 0 where
  pub chunks : List Text
  pub broken : Option Failure
  pub final_result : Outcome ProviderStreamResult

-- A provider at one input: `generate`, and `stream`, which a provider may lack.
pub record ProviderPort : Type 0 where
  pub label : Text
  pub generate : Outcome ProviderResult
  pub stream : Option (Outcome (Option ProviderStreamSession))

-- `DisabledProvider`
abbrev pub disabled_provider : (provider_name : Text) → ProviderPort
disabled_provider provider_name = record {
  label = provider_name;
  generate = raised (
      provider_error (
        provider_error_of auth (provider_name ++ codes " provider not configured")
          (codes "unknown")));
  stream = none;
}
