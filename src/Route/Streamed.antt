-- ===== src/Route/Streamed.antt =====
-- The streamed answer: `event_generator` of app/api/routes/chat.py. The frames are those that a
-- client reads to the end; one that goes away is left out.
use llm_chat_platform.Base.{
  ℕ, Bool, true, false, List, [], ◌∷◌, ◌++◌, map, Option, none, some, Text, codes,
}
use llm_chat_platform.Provider.{
  Failure, Outcome, ProviderResult, ProviderStreamResult, provider_error, timed_out, other_error,
  returned, raised, kind_value,
}
use llm_chat_platform.Service.{
  ServiceError, Response, StreamChatResult, ChatServiceStreamSession, answered, failed,
  provider_timeout, provider_execution, let_through, stream_chat,
}
use llm_chat_platform.Route.{
  ChatRequest, UsageEvent, Db, Tx, Prepared, RagSourceOut, GenerationOutcome, Environment, success,
  not_found, service_failed, db_failed, reached, interrupted, ◌>>=◌, unless_raised,
  open_conversation, conversation_of, add_message, user_message, assistant_message, add_usage,
  source_out, ok_outcome, not_found_outcome, error_outcome,
}

pub data Frame : Type 0 where
  token : Text → Frame
  error_frame : (error_kind : Text) → (retryable : Option Bool) → Frame
  done_frame :
      (conversation_id user_message_id assistant_message_id : ℕ) → List RagSourceOut → Frame

pub record Streamed : Type 0 where
  pub db : Db
  pub frames : List Frame
  pub outcome : GenerationOutcome

abbrev pub internal_frame : Frame
internal_frame = error_frame (codes "internal") none

-- The two `except` clauses.
abbrev pub failure_frame : Failure → Frame
failure_frame (provider_error e) = error_frame (kind_value e.kind) (some e.retryable)
failure_frame timed_out = internal_frame
failure_frame (other_error n) = internal_frame

abbrev pub service_frame : ServiceError → Frame
service_frame (let_through e) = failure_frame e
service_frame provider_timeout = internal_frame
service_frame (provider_execution message) = internal_frame

-- The fields of a usage event where the session gave no provider result.
abbrev pub provider_part : Option ProviderStreamResult → Option ProviderResult
provider_part none = none
provider_part (some r) = some r.provider_result

abbrev pub or_elapsed : ℕ → Option ℕ → ℕ
or_elapsed elapsed none = elapsed
or_elapsed elapsed (some latency) = latency

-- A conversation that is not found is told inside the transaction, whose commit may still raise.
abbrev pub not_found_closing : (commit_raised : Bool) → Db → Streamed
not_found_closing true db = record {
  db = db;
  frames = error_frame (codes "not_found") none ∷ internal_frame ∷ [];
  outcome = error_outcome;
}
not_found_closing false db = record {
  db = db;
  frames = error_frame (codes "not_found") none ∷ [];
  outcome = not_found_outcome;
}

module _ (env : Environment) (request : ChatRequest) (p : Prepared) where
  abbrev pub stream_usage : Option ProviderResult → UsageEvent
  stream_usage none = record {
    id = env.fresh.usage_event;
    provider = codes "unknown";
    model_version = codes "unknown";
    prompt_version = codes "unknown";
    status = success;
    latency_ms = env.elapsed_ms;
    error_message = none;
    message_id = some env.fresh.assistant_message;
    input_tokens = none;
    output_tokens = none;
    total_tokens = none;
  }
  stream_usage (some r) = record {
    id = env.fresh.usage_event;
    provider = r.provider;
    model_version = r.model_version;
    prompt_version = r.prompt_version;
    status = success;
    latency_ms = or_elapsed env.elapsed_ms r.latency_ms;
    error_message = none;
    message_id = some env.fresh.assistant_message;
    input_tokens = r.input_tokens;
    output_tokens = r.output_tokens;
    total_tokens = r.total_tokens;
  }

  -- The transaction behind the stream.
  unfoldable pub persist : StreamChatResult → Db → Tx Db
  unfolding open_conversation
  persist r db = do
    opened ← open_conversation env.faults env.tenant env.fresh request.conversation_id db
    with_user ← add_message env.faults.user_flush (user_message env request) opened
    with_both ←
        add_message env.faults.assistant_flush
          (assistant_message env request r.assistant_message.content) with_user
    unless_raised env.faults.commit
        (add_usage (stream_usage (provider_part r.provider_result)) with_both)

  abbrev pub done_of : Frame
  done_of =
      done_frame (conversation_of env.fresh request.conversation_id) env.fresh.user_message
        env.fresh.assistant_message (map source_out p.sources)

  -- The frames behind the tokens.
  abbrev pub closing : Db → Tx Db → Streamed
  closing db (reached committed) = record {
    db = committed;
    frames = done_of ∷ [];
    outcome = ok_outcome;
  }
  closing db (interrupted not_found) = not_found_closing env.faults.commit db
  closing db (interrupted (service_failed e)) = record {
    db = db;
    frames = service_frame e ∷ [];
    outcome = error_outcome;
  }
  closing db (interrupted db_failed) = record {
    db = db;
    frames = internal_frame ∷ [];
    outcome = error_outcome;
  }

  abbrev pub finish : Db → Outcome StreamChatResult → Streamed
  finish db (raised e) = record { db = db; frames = failure_frame e ∷ []; outcome = error_outcome }
  finish db (returned r) = closing db (persist r db)

  -- What follows the tokens, by the exception that broke the iteration.
  abbrev pub after_tokens : Db → Option Failure → Outcome StreamChatResult → Streamed
  after_tokens db (some e) final_result = record {
    db = db;
    frames = failure_frame e ∷ [];
    outcome = error_outcome;
  }
  after_tokens db none final_result = finish db final_result

  abbrev pub with_tokens : List Text → Streamed → Streamed
  with_tokens chunks s = record s { frames = map token chunks ++ s.frames }

  abbrev pub deliver : Db → Response ChatServiceStreamSession → Streamed
  deliver db (failed e) = record { db = db; frames = service_frame e ∷ []; outcome = error_outcome }
  deliver db (answered session) =
      with_tokens session.chunks (after_tokens db session.broken session.final_result)

  unfoldable pub event_generator : Db → Streamed
  unfolding persist stream_chat
  event_generator db = deliver db (
      stream_chat (env.resolve true p.messages p.metadata)
        (env.resolve false p.messages p.metadata))
