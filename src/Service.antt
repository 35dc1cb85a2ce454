-- ===== src/Service.antt =====
-- The orchestration of one answer: app/core/domain/chat_service.py. Resolving a provider is an
-- argument, for a streamed and for a plain request; what `asyncio.wait_for` makes of a call that
-- runs too long is the failure `timed_out`. A call gives its response and the outcome that the span
-- `rag.generate` records.
pub mod Mapping
pub mod Delivery
mod Tests
use llm_chat_platform.Base.{Bool, true, false, Option, none, some, List, [], ◌∷◌, Text, codes}
use llm_chat_platform.Chat.{ChatMessage, assistant}
use llm_chat_platform.Provider.{
  ProviderErrorKind, Failure, Outcome, ProviderResult, ProviderStreamResult, ProviderStreamSession,
  ProviderPort, timeout, network, auth, rate_limit, bad_request, upstream, unknown, provider_error,
  timed_out, other_error, returned, raised,
}

-- What the service raises: `ProviderTimeoutError`, `ProviderExecutionError` with its message, or an
-- exception that it lets through.
pub data ServiceError : Type 0 where
  provider_timeout : ServiceError
  provider_execution : (message : Text) → ServiceError
  let_through : Failure → ServiceError

pub data Response (A : Type 0) : Type 0 where
  answered : A → Response A
  failed : ServiceError → Response A

pub record ChatServiceResult : Type 0 where
  pub assistant_message : ChatMessage
  pub provider_result : ProviderResult

pub data GenerationOutcome : Type 0 where
  generated timed_out_call refused_call broken_call : GenerationOutcome

abbrev pub is_timeout : ProviderErrorKind → Bool
is_timeout timeout = true
is_timeout _ = false

abbrev pub answer_of : Text → ChatMessage
answer_of content = record { role = assistant; content = content }

-- A `ProviderError`, by the test of its kind.
abbrev pub of_provider_error : Bool → Text → Response ChatServiceResult × GenerationOutcome
of_provider_error true message = (failed provider_timeout, timed_out_call)
of_provider_error false message = (failed (provider_execution message), refused_call)

-- The `try` of `run`, on what the call gives.
unfoldable pub translate : Outcome ProviderResult → Response ChatServiceResult × GenerationOutcome
translate (returned r) =
    (answered (record { assistant_message = answer_of r.content; provider_result = r }), generated)
translate (raised timed_out) = (failed provider_timeout, timed_out_call)
translate (raised (provider_error e)) = of_provider_error (is_timeout e.kind) e.message
translate (raised (other_error n)) =
    (failed (provider_execution (codes "provider execution failed")), broken_call)

-- `run`, on the provider that is resolved; no outcome is recorded where resolving raises.
unfoldable pub run : Outcome ProviderPort → Response ChatServiceResult × Option GenerationOutcome
unfolding translate
run (raised e) = (failed (let_through e), none)
run (returned provider) =
    let (response, outcome) = translate provider.generate in (response, some outcome)

pub record StreamChatResult : Type 0 where
  pub assistant_message : ChatMessage
  pub provider_result : Option ProviderStreamResult

-- A session, as that of a provider.
pub record ChatServiceStreamSession : Type 0 where
  pub chunks : List Text
  pub broken : Option Failure
  pub final_result : Outcome StreamChatResult

-- The session of a provider that does not stream: one chunk, the whole answer.
abbrev pub whole_answer : Response ChatServiceResult → Response ChatServiceStreamSession
whole_answer (failed e) = failed e
whole_answer (answered r) = answered record {
  chunks = r.assistant_message.content ∷ [];
  broken = none;
  final_result =
      returned (record { assistant_message = r.assistant_message; provider_result = none });
}

-- `final_result` of a real session.
abbrev pub chat_result : Outcome ProviderStreamResult → Outcome StreamChatResult
chat_result (raised e) = raised e
chat_result (returned r) =
    returned (record { assistant_message = answer_of r.content; provider_result = some r })

-- `stream_chat` behind the resolution, on what the provider's `stream` gives.
unfoldable pub open_session :
    (plain : Outcome ProviderPort)
    → Option (Outcome (Option ProviderStreamSession))
    → Response ChatServiceStreamSession
unfolding run
open_session plain none = whole_answer (run plain).0
open_session plain (some (raised e)) = failed (let_through e)
open_session plain (some (returned none)) = whole_answer (run plain).0
open_session plain (some (returned (some session))) = answered record {
  chunks = session.chunks;
  broken = session.broken;
  final_result = chat_result session.final_result;
}

-- `stream_chat`: the provider is resolved for a stream, and again, for a plain request, where it
-- does not stream.
unfoldable pub stream_chat :
    (streamed plain : Outcome ProviderPort) → Response ChatServiceStreamSession
unfolding open_session
stream_chat (raised e) plain = failed (let_through e)
stream_chat (returned provider) plain = open_session plain provider.stream
