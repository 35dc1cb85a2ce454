-- ===== src/Dependency.antt =====
-- The memory of one chat request: `get_chat_memory_context` and `_materialize_window` of
-- app/api/deps.py. What reading the history gives is an argument; the outcome and the number of
-- selected events that the code records are part of the result, spans and log lines are not.
pub mod Delivered
mod Tests
use llm_chat_platform.Base.{
  ℕ, zero, ◌+◌, ◌-◌, Bool, true, false, not, ◌||◌, Option, none, some, List, [], ◌∷◌, map, Text,
  length, is_nil, ltb, ◌==◌, if◌then◌else◌, Result, ok, err, ◌>>=◌,
}
use llm_chat_platform.Chat.{window_chars}
use llm_chat_platform.History.{HistoryMessage, Assembler, assemble}
use llm_chat_platform.Turns.{
  WindowPartition, CorpusEvent, document_text, build_materialized_window, corpus_from_partition,
}
use llm_chat_platform.Packer.{pack_recent_window}
use llm_chat_platform.Bm25.{Scores, RankedEvent, query_tokens, rank_events, pack_selected_events}
use llm_chat_platform.Memory.{RetrievedMemoryEvent, ChatMemoryContext, empty_memory, from_partition}

pub record MemorySettings : Type 0 where
  pub conversation_history_enabled : Bool
  pub assembler : Assembler
  pub max_rows : ℕ
  pub max_added_context_chars : ℕ
  pub ebm25_enabled : Bool

-- What `fetch_ordered` under `wait_for` gives.
pub data Read : Type 0 where
  rows : List HistoryMessage → Read
  not_found_read slow_read failed_read : Read

pub data MemoryOutcome : Type 0 where
  skipped_first_turn conversation_not_found timeout error : MemoryOutcome
  no_out_of_window_corpus starved empty okay : MemoryOutcome

pub record Delivery : Type 0 where
  pub context : ChatMemoryContext
  pub outcome : Option MemoryOutcome
  pub selected_count : Option ℕ

pub record Materialized : Type 0 where
  pub partition : WindowPartition
  pub truncated : Bool
  pub cap_reached : Bool

-- `_materialize_window`, on the rows.
unfoldable pub materialize_window :
    Assembler → (max_rows : ℕ) → List HistoryMessage → Result Materialized
unfolding assemble build_materialized_window
materialize_window a max_rows all_messages = do
  assembled ← assemble a (ok all_messages)
  partition ← build_materialized_window all_messages assembled.messages
  ok (record {
    partition = partition;
    truncated = ltb (length partition.window) (length all_messages);
    cap_reached = length all_messages == max_rows;
  })

-- The window after the first pass at the cap, and whether that pass took something.
unfoldable pub first_pass : (limit : ℕ) → Materialized → ChatMemoryContext × Bool
unfolding from_partition pack_recent_window
first_pass limit m =
    let context = from_partition m.partition m.truncated m.cap_reached in
    let packed = pack_recent_window context.messages limit 0 in
    (
      record context {
        messages = packed.messages;
        truncated = context.truncated || packed.truncated;
      },
      packed.truncated,
    )

-- Mode B: the context, the outcome that it overrides, and the number that it selected.
pub record Evidence : Type 0 where
  pub context : ChatMemoryContext
  pub outcome : Option MemoryOutcome
  pub selected_count : Option ℕ

abbrev pub no_evidence : ChatMemoryContext → MemoryOutcome → Evidence
no_evidence context outcome = record {
  context = context;
  outcome = some outcome;
  selected_count = some 0;
}

abbrev pub event_of : CorpusEvent → RetrievedMemoryEvent
event_of e = record { event_id = e.event_id; content = document_text e.unit }

-- The selected events in the context.
abbrev pub with_selected : ChatMemoryContext → List CorpusEvent → Evidence
with_selected context [] = no_evidence context starved
with_selected context (e ∷ es) = record {
  context = record context { retrieved_events = map event_of (e ∷ es) };
  outcome = none;
  selected_count = some (length (e ∷ es));
}

abbrev pub with_ranked :
    (s : Scores) → (limit : ℕ) → ChatMemoryContext → Result (List (RankedEvent s)) → Evidence
with_ranked s limit context (err e) = no_evidence context error
with_ranked s limit context (ok ranked) =
    with_selected context
      (pack_selected_events (limit - window_chars context.messages) []
        (map (λ r. r.event) ranked)).0

module _ (s : Scores) (lexical_tokens : Text → List Text) where
  abbrev pub with_corpus :
      (limit : ℕ) → (message : Text) → ChatMemoryContext → Result (List CorpusEvent) → Evidence
  with_corpus limit message context (err e) = no_evidence context error
  with_corpus limit message context (ok []) = no_evidence context no_out_of_window_corpus
  with_corpus limit message context (ok (e ∷ es)) =
      with_ranked s limit context
        (rank_events s lexical_tokens (e ∷ es) (query_tokens lexical_tokens message))

  unfoldable pub select_evidence :
      MemorySettings → Text → WindowPartition → ChatMemoryContext → Evidence
  unfolding corpus_from_partition
  select_evidence settings message partition context =
      if settings.ebm25_enabled
      then with_corpus settings.max_added_context_chars message context
          (corpus_from_partition partition)
      else record { context = context; outcome = none; selected_count = none }

  -- The outcome that is recorded at the end.
  abbrev pub final_outcome : (packed_truncated : Bool) → Evidence → MemoryOutcome
  final_outcome packed_truncated e =
      if packed_truncated
      then starved
      else elim e.outcome [ some o ↦ o | none ↦ if is_nil e.context.messages then empty else okay ]

  abbrev pub deliver : MemorySettings → Text → Result Materialized → Delivery
  deliver settings message (err e) = record {
    context = empty_memory;
    outcome = some error;
    selected_count = none;
  }
  deliver settings message (ok m) =
      let (context, packed_truncated) = first_pass settings.max_added_context_chars m in
      let e = select_evidence settings message m.partition context in
      record {
        context = e.context;
        outcome = some (final_outcome packed_truncated e);
        selected_count = e.selected_count;
      }

  abbrev pub after_read : MemorySettings → Text → Read → Delivery
  after_read settings message not_found_read = record {
    context = empty_memory;
    outcome = some conversation_not_found;
    selected_count = none;
  }
  after_read settings message slow_read = record {
    context = empty_memory;
    outcome = some timeout;
    selected_count = none;
  }
  after_read settings message failed_read = record {
    context = empty_memory;
    outcome = some error;
    selected_count = none;
  }
  after_read settings message (rows all_messages) =
      deliver settings message
        (materialize_window settings.assembler settings.max_rows all_messages)

  abbrev pub for_conversation :
      MemorySettings → Text → (conversation_id : Option ℕ) → Read → Delivery
  for_conversation settings message none read = record {
    context = empty_memory;
    outcome = some skipped_first_turn;
    selected_count = none;
  }
  for_conversation settings message (some id) read = after_read settings message read

  unfoldable pub get_chat_memory_context :
      MemorySettings → (message : Text) → (conversation_id : Option ℕ) → Read → Delivery
  unfolding materialize_window first_pass select_evidence
  get_chat_memory_context settings message conversation_id read =
      if settings.conversation_history_enabled
      then for_conversation settings message conversation_id read
      else record { context = empty_memory; outcome = none; selected_count = none }
