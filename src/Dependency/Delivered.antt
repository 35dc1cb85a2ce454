-- ===== src/Dependency/Delivered.antt =====
-- What the memory dependency delivers: `get_chat_memory_context` of app/api/deps.py.
use mathlib.Core.Path.{subst}
use llm_chat_platform.Base.{
  ◌≡◌, refl, sym, ap, ℕ, ◌+◌, ◌-◌, ◌≤◌, Bool-cases, inl, inr, Option, none, some, List, [], ◌∷◌,
  map, Text, length, leb, leb→le, leb→gt, Result, ok, err, >>=-eq-ok, arith,
}
use llm_chat_platform.Chat.{ChatMessage, window_chars, Alternates, role_of}
use llm_chat_platform.History.{HistoryMessage, Assembler, assemble}
use llm_chat_platform.Turns.{
  WindowPartition, CorpusEvent, build_materialized_window, corpus_from_partition,
}
use llm_chat_platform.Turns.Partition.{build_materialized_window-IsPartition, role_of_history}
use llm_chat_platform.Packer.{pack_recent_window}
use llm_chat_platform.Packer.Bounds.{pack_recent_window-IsPacked, packed_when_full}
use llm_chat_platform.Packer.Flag.{pack_recent_window-Alternates}
use llm_chat_platform.Bm25.{Scores, RankedEvent, rank_events, query_tokens, total_size, bm25_top_k}
use llm_chat_platform.Bm25.Selection.{pack_selected_events-IsSelection}
use llm_chat_platform.Memory.{
  RetrievedMemoryEvent, ChatMemoryContext, empty_memory, from_partition, message_of,
}
use llm_chat_platform.Dependency.{
  MemorySettings, Read, rows, not_found_read, slow_read, failed_read, Materialized,
  materialize_window, first_pass, event_of, with_selected, with_ranked, with_corpus,
  select_evidence, deliver, after_read, for_conversation, get_chat_memory_context,
}

abbrev pub event_chars : List RetrievedMemoryEvent → ℕ
event_chars [] = 0
event_chars (e ∷ es) = length e.content + event_chars es

event_chars-map : (es : List CorpusEvent) → event_chars (map event_of es) ≡ total_size es
event_chars-map [] = refl
event_chars-map (e ∷ es) = ap (λ n. length (event_of e).content + n) (event_chars-map es)

length-map-event_of : (es : List CorpusEvent) → length (map event_of es) ≡ length es
length-map-event_of [] = refl
length-map-event_of (e ∷ es) = omega (arith, length-map-event_of es)

-- A context within the cap, with few events and a window of turns.
pub record IsBounded (limit : ℕ) (c : ChatMemoryContext) : Type 0 where
  pub within : window_chars c.messages + event_chars c.retrieved_events ≤ limit
  pub few : length c.retrieved_events ≤ bm25_top_k
  pub alternates : Alternates (map role_of c.messages)

empty-IsBounded : (limit : ℕ) → IsBounded limit empty_memory
empty-IsBounded limit = record { within = omega arith; few = omega arith; alternates = tt }

with_selected-IsBounded :
    (limit : ℕ) (c : ChatMemoryContext) (es : List CorpusEvent)
    → IsBounded limit c
    → total_size es ≤ limit - window_chars c.messages
    → length es ≤ bm25_top_k
    → IsBounded limit (with_selected c es).context
with_selected-IsBounded limit c [] h size few = h
with_selected-IsBounded limit c (e ∷ es) h size few = record {
  within = omega (arith, h.within, event_chars-map (e ∷ es));
  few = omega (arith, length-map-event_of (e ∷ es));
  alternates = h.alternates;
}

with_ranked-IsBounded :
    (s : Scores) (limit : ℕ) (c : ChatMemoryContext) (r : Result (List (RankedEvent s)))
    → IsBounded limit c
    → IsBounded limit (with_ranked s limit c r).context
with_ranked-IsBounded s limit c (err e) h = h
with_ranked-IsBounded s limit c (ok ranked) h =
    let sel =
      pack_selected_events-IsSelection (limit - window_chars c.messages) []
        (map (λ r. r.event) ranked) in
    with_selected-IsBounded limit c _ h (omega (arith, sel.within_budget, sel.counted)) sel.at_most

map-message_of :
    (ms : List HistoryMessage) → map role_of (map message_of ms) ≡ map role_of_history ms
map-message_of [] = refl
map-message_of (m ∷ ms) = ap (λ t. m.role ∷ t) (map-message_of ms)

window_chars-packed :
    (ms : List ChatMessage) (limit : ℕ)
    → window_chars (pack_recent_window ms limit 0).messages ≤ limit
window_chars-packed ms limit = elim (Bool-cases (leb limit 0)) [
  | inl full ↦ rw (packed_when_full ms limit 0 (leb→le _ _ full)) (omega arith)
  | inr room ↦
      let packed = pack_recent_window-IsPacked ms limit 0 (leb→gt _ _ room) in
      omega (arith, packed.bounded)
]

abbrev partition_window : Result Materialized → List HistoryMessage
partition_window (ok m) = m.partition.window
partition_window (err e) = []

-- A window that is built alternates.
materialize_window-Alternates :
    (a : Assembler) (max_rows : ℕ) (all_messages : List HistoryMessage) (m : Materialized)
    → materialize_window a max_rows all_messages ≡ ok m
    → Alternates (map role_of_history m.partition.window)
unfolding materialize_window
materialize_window-Alternates a max_rows all_messages m h =
    let (assembled, _, h1) = >>=-eq-ok (assemble a (ok all_messages)) _ h in
    let (p, built, h2) =
      >>=-eq-ok (build_materialized_window all_messages assembled.messages) _ h1 in
    let whole = build_materialized_window-IsPartition all_messages assembled.messages p built in
    subst (λ t. Alternates (map role_of_history t)) (ap partition_window h2) whole.alternates

module _ (s : Scores) (lexical_tokens : Text → List Text) where
  with_corpus-IsBounded :
      (limit : ℕ) (message : Text) (c : ChatMemoryContext) (r : Result (List CorpusEvent))
      → IsBounded limit c
      → IsBounded limit (with_corpus s lexical_tokens limit message c r).context
  with_corpus-IsBounded limit message c (err e) h = h
  with_corpus-IsBounded limit message c (ok []) h = h
  with_corpus-IsBounded limit message c (ok (e ∷ es)) h =
      with_ranked-IsBounded s limit c
        (rank_events s lexical_tokens (e ∷ es) (query_tokens lexical_tokens message)) h

  select_evidence-IsBounded :
      (settings : MemorySettings) (message : Text) (p : WindowPartition) (c : ChatMemoryContext)
      → IsBounded settings.max_added_context_chars c
      → IsBounded settings.max_added_context_chars
          (select_evidence s lexical_tokens settings message p c).context
  unfolding select_evidence
  select_evidence-IsBounded settings message p c h = elim (Bool-cases settings.ebm25_enabled) [
    | inl on ↦ rw on (
        with_corpus-IsBounded settings.max_added_context_chars message c (corpus_from_partition p)
          h)
    | inr off ↦ rw off h
  ]

  first_pass-IsBounded :
      (limit : ℕ) (m : Materialized)
      → Alternates (map role_of_history m.partition.window)
      → IsBounded limit (first_pass limit m).0
  unfolding first_pass from_partition
  first_pass-IsBounded limit m alt =
      let ms = map message_of m.partition.window in
      let roles = subst Alternates (sym (map-message_of m.partition.window)) alt in
      record {
        within = omega (arith, window_chars-packed ms limit);
        few = omega arith;
        alternates = pack_recent_window-Alternates ms limit 0 roles;
      }

  deliver-IsBounded :
      (settings : MemorySettings) (message : Text) (all_messages : List HistoryMessage)
      (r : Result Materialized)
      → materialize_window settings.assembler settings.max_rows all_messages ≡ r
      → IsBounded settings.max_added_context_chars
          (deliver s lexical_tokens settings message r).context
  deliver-IsBounded settings message all_messages (err e) eq =
      empty-IsBounded settings.max_added_context_chars
  deliver-IsBounded settings message all_messages (ok m) eq =
      select_evidence-IsBounded settings message m.partition
        (first_pass settings.max_added_context_chars m).0
        (first_pass-IsBounded settings.max_added_context_chars m
          (materialize_window-Alternates settings.assembler settings.max_rows all_messages m eq))

  after_read-IsBounded :
      (settings : MemorySettings) (message : Text) (read : Read)
      → IsBounded settings.max_added_context_chars
          (after_read s lexical_tokens settings message read).context
  after_read-IsBounded settings message (rows all_messages) =
      deliver-IsBounded settings message all_messages _ refl
  after_read-IsBounded settings message not_found_read =
      empty-IsBounded settings.max_added_context_chars
  after_read-IsBounded settings message slow_read = empty-IsBounded settings.max_added_context_chars
  after_read-IsBounded settings message failed_read =
      empty-IsBounded settings.max_added_context_chars

  for_conversation-IsBounded :
      (settings : MemorySettings) (message : Text) (id : Option ℕ) (read : Read)
      → IsBounded settings.max_added_context_chars
          (for_conversation s lexical_tokens settings message id read).context
  for_conversation-IsBounded settings message none read =
      empty-IsBounded settings.max_added_context_chars
  for_conversation-IsBounded settings message (some i) read =
      after_read-IsBounded settings message read

  -- Whatever the settings and the answer of the history are, the dependency delivers a context, never
  -- an exception: the window and the contents of the retrieved events together are within the cap,
  -- there are at most five events, and the window alternates from a user message to an answer.
  pub get_chat_memory_context-IsBounded :
      (settings : MemorySettings) (message : Text) (conversation_id : Option ℕ) (read : Read)
      → IsBounded settings.max_added_context_chars
          (get_chat_memory_context s lexical_tokens settings message conversation_id read).context
  unfolding get_chat_memory_context
  get_chat_memory_context-IsBounded settings message conversation_id read =
      elim (Bool-cases settings.conversation_history_enabled) [
        | inl on ↦ rw on (for_conversation-IsBounded settings message conversation_id read)
        | inr off ↦ rw off (empty-IsBounded settings.max_added_context_chars)
      ]
