-- ===== src/Resilient.antt =====
-- The provider with a fallback: app/core/providers/resilient_provider.py. The log is part of the
-- state. The driver task of a stream runs to its end by itself (its queue is unbounded), so a
-- session is what the driver leaves: the queue that the client reads and the final state.
mod State
pub mod Generate
pub mod Driver
pub mod Served
pub mod Stream
mod Tests
use llm_chat_platform.Base.{
  ℕ, Bool, true, false, not, ◌&&◌, ◌||◌, Option, none, some, List, [], ◌∷◌, ◌++◌, map, Text, codes,
  is_nil, if◌then◌else◌,
}
use llm_chat_platform.Provider.{
  ProviderErrorKind, ProviderError, Failure, Outcome, ProviderResult, ProviderStreamResult,
  ProviderStreamSession, ProviderPort, kind_value, provider_error_of, rate_limit, upstream, timeout,
  unknown, network, auth, bad_request, provider_error, timed_out, other_error, returned, raised,
}
pub use State.{
  is_transient, is_retryable_provider_error, failure_kind, result_provider, LogEntry, Item,
  ResilientStreamState, initial_state, put_chunk, put_chunks, outcome_of, fallback_logged,
  final_logged, chunk, stream_end,
}
unfoldable pub use State.{consume_session}

-- The methods of a `ResilientProvider` of the two providers.
unfoldable pub generate : ProviderPort → ProviderPort → Outcome ProviderResult × List LogEntry
generate primary fallback = elim primary.generate [
  | returned r ↦ (
    returned r,
    final_logged (result_provider r.provider primary.label) false 1 false none false ∷ [],
  )
  | raised e ↦
      if is_retryable_provider_error e
      then (elim fallback.generate [
        | raised f ↦ (
          raised f,
          fallback_logged (failure_kind e) false
              ∷ final_logged fallback.label true 2 false (some (failure_kind f)) false
              ∷ [],
        )
        | returned r ↦ (
          returned r,
          fallback_logged (failure_kind e) false
              ∷ final_logged (result_provider r.provider fallback.label) true 2 false none false
              ∷ [],
        )
      ])
      else (raised e, final_logged primary.label false 1 false (some (failure_kind e)) false ∷ [])
]

-- The end of a consumed session: its result, or its failure.
abbrev pub with_result :
    (default : Text) → ProviderStreamResult → ResilientStreamState → ResilientStreamState
with_result default r s = record s {
  final_result = some r;
  final_provider = some (result_provider r.provider_result.provider default);
}

abbrev pub with_error : (provider : Text) → Failure → ResilientStreamState → ResilientStreamState
with_error provider e s = record s {
  error = some e;
  final_provider = some provider;
  failure = some (failure_kind e);
}

abbrev pub settle :
    (default : Text) → ResilientStreamState × Outcome ProviderStreamResult → ResilientStreamState
settle default (s, returned r) = with_result default r s
settle default (s, raised e) = with_error default e s

-- The second attempt of `_drive_stream`, after the failure `e` of the first, on what the fallback's
-- `stream` gives.
abbrev pub second_attempt :
    (fallback_name : Text)
    → Failure
    → ResilientStreamState
    → Option (Outcome (Option ProviderStreamSession))
    → ResilientStreamState
second_attempt fallback_name e s none = with_error fallback_name e s
second_attempt fallback_name e s (some (raised f)) = with_error fallback_name f s
second_attempt fallback_name e s (some (returned none)) = with_error fallback_name e s
second_attempt fallback_name e s (some (returned (some session))) =
    settle fallback_name (consume_session session s)

abbrev pub final_entry : (default : Text) → ResilientStreamState → LogEntry
final_entry default s =
    final_logged
      (elim s.final_provider [ none ↦ default | some p ↦ if is_nil p then default else p ])
      s.fallback_used s.attempts_used true s.failure s.first_token_emitted

abbrev pub put_end : ResilientStreamState → ResilientStreamState
put_end s = record s { queue = s.queue ++ stream_end ∷ [] }

-- `_drive_stream` after the first attempt.
unfoldable pub conclude :
    ProviderPort
    → ProviderPort
    → ResilientStreamState
    → Outcome ProviderStreamResult
    → ResilientStreamState × List LogEntry
unfolding consume_session
conclude primary fallback s (returned r) =
    let name = if s.fallback_used then fallback.label else primary.label in
    let done = with_result name r s in (put_end done, final_entry primary.label done ∷ [])
conclude primary fallback s (raised e) =
    let name = if s.fallback_used then fallback.label else primary.label in
    let done = with_error name e s in
    let again =
      second_attempt fallback.label e (record s { fallback_used = true; attempts_used = 2 })
        fallback.stream in
    if not s.first_chunk_emitted && (not s.fallback_used && is_retryable_provider_error e)
    then (
      put_end again,
      fallback_logged (failure_kind e) true ∷ final_entry primary.label again ∷ [],
    )
    else (put_end done, final_entry primary.label done ∷ [])

unfoldable pub drive_stream :
    ProviderPort
    → ProviderPort
    → ProviderStreamSession
    → ResilientStreamState
    → ResilientStreamState × List LogEntry
unfolding consume_session conclude
drive_stream primary fallback session s0 =
    let (s, r) = consume_session session s0 in conclude primary fallback s r

-- `chunk_iterator`, on what the driver put in the queue.
abbrev pub chunks_until_end : List Item → List Text
chunks_until_end [] = []
chunks_until_end (stream_end ∷ items) = []
chunks_until_end (chunk c ∷ items) = c ∷ chunks_until_end items

-- `get_final_result`
abbrev pub get_final_result : (name : Text) → ResilientStreamState → Outcome ProviderStreamResult
get_final_result name s = elim s.error [
  | some e ↦ raised e
  | none ↦ elim s.final_result [
    | none ↦
        raised
          (provider_error (provider_error_of unknown (codes "provider stream incomplete") name))
    | some r ↦ returned r
  ]
]

-- The session that reads what the driver leaves.
abbrev pub given_of : (name : Text) → ResilientStreamState → ProviderStreamSession
given_of name s = record {
  chunks = chunks_until_end s.queue;
  broken = none;
  final_result = get_final_result name s;
}

unfoldable pub build_stream_session :
    ProviderPort
    → ProviderPort
    → ProviderStreamSession
    → ResilientStreamState
    → ProviderStreamSession × List LogEntry
unfolding drive_stream
build_stream_session primary fallback session s0 =
    let (s, log) = drive_stream primary fallback session s0 in (given_of primary.label s, log)

abbrev pub Streamed : Type 0
Streamed = Outcome (Option ProviderStreamSession) × List LogEntry

-- `_start_fallback_session` and what `stream` does with it, on what the fallback's `stream` gives.
unfoldable pub start_fallback :
    ProviderPort
    → ProviderPort
    → Failure
    → Option (Outcome (Option ProviderStreamSession))
    → Streamed
unfolding build_stream_session
start_fallback primary fallback e none = (returned none, fallback_logged (failure_kind e) true ∷ [])
start_fallback primary fallback e (some (returned none)) =
    (returned none, fallback_logged (failure_kind e) true ∷ [])
start_fallback primary fallback e (some (raised f)) = (
  raised f,
  fallback_logged (failure_kind e) true
      ∷ final_logged fallback.label true 2 true (some (failure_kind f)) false
      ∷ [],
)
start_fallback primary fallback e (some (returned (some session))) =
    let (given, log) = build_stream_session primary fallback session (initial_state true 2) in
    (returned (some given), fallback_logged (failure_kind e) true ∷ log)

-- The body of `stream`, on what the primary's `stream` gives.
unfoldable pub start :
    ProviderPort → ProviderPort → Option (Outcome (Option ProviderStreamSession)) → Streamed
unfolding build_stream_session start_fallback
start primary fallback none = (returned none, [])
start primary fallback (some (returned none)) = (returned none, [])
start primary fallback (some (returned (some session))) =
    let (given, log) = build_stream_session primary fallback session (initial_state false 1) in
    (returned (some given), log)
start primary fallback (some (raised e)) =
    if is_retryable_provider_error e
    then start_fallback primary fallback e fallback.stream
    else (raised e, final_logged primary.label false 1 true (some (failure_kind e)) false ∷ [])

unfoldable pub stream : ProviderPort → ProviderPort → Streamed
unfolding start
stream primary fallback = start primary fallback primary.stream
