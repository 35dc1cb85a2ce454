-- ===== src/Memory.antt =====
-- Conversation memory for one chat request: app/core/domain/chat_memory.py, and the metadata that
-- app/api/routes/chat.py merges from both channels.
use llm_chat_platform.Base.{ℕ, Bool, false, List, [], ◌∷◌, map, Text}
use llm_chat_platform.Base.Int.{pos}
use llm_chat_platform.Chat.{ChatMessage}
use llm_chat_platform.History.{HistoryMessage}
use llm_chat_platform.Json.{Value, null, int, str, list, dict, Entries, items_of, end, entry, field}
use llm_chat_platform.Prompt.{memory_schema_version}
use llm_chat_platform.Rag.{RagSource, rag_metadata}
use llm_chat_platform.Turns.{WindowPartition}

pub record RetrievedMemoryEvent : Type 0 where
  pub event_id : ℕ
  pub content : Text

abbrev pub event_dict : RetrievedMemoryEvent → Value
event_dict e = dict (field "event_id" (int (pos e.event_id)) (field "content" (str e.content) end))

pub record ChatMemoryContext : Type 0 where
  pub messages : List ChatMessage
  pub truncated : Bool
  pub history_row_cap_reached : Bool
  pub retrieved_events : List RetrievedMemoryEvent

-- The default instance, which every failure path returns.
abbrev pub empty_memory : ChatMemoryContext
empty_memory = record {
  messages = [];
  truncated = false;
  history_row_cap_reached = false;
  retrieved_events = [];
}

unfoldable pub memory_metadata : List RetrievedMemoryEvent → Value
unfolding memory_schema_version
memory_metadata [] = null
memory_metadata (e ∷ es) = dict (
    field "memory"
      (dict (
        field "schema_version" (str memory_schema_version)
          (field "events" (list (items_of (map event_dict (e ∷ es)))) end)))
      end)

abbrev pub message_of : HistoryMessage → ChatMessage
message_of m = record { role = m.role; content = m.content }

unfoldable pub from_partition : WindowPartition → (truncated cap_reached : Bool) → ChatMemoryContext
from_partition p truncated cap_reached = record {
  messages = map message_of p.window;
  truncated = truncated;
  history_row_cap_reached = cap_reached;
  retrieved_events = [];
}

-- `{**(memory or {}), **(rag or {})} or None`; the two dicts have one key each, and never the same.
abbrev pub entries_of : Value → Entries
entries_of (dict es) = es
entries_of _ = end

abbrev pub chain : Entries → Entries → Entries
chain end fs = fs
chain (entry k v es) fs = entry k v (chain es fs)

abbrev pub dict_or_none : Entries → Value
dict_or_none end = null
dict_or_none (entry k v es) = dict (entry k v es)

unfoldable pub provider_metadata : List RetrievedMemoryEvent → List RagSource → Value
unfolding memory_metadata rag_metadata
provider_metadata events sources =
    dict_or_none (chain (entries_of (memory_metadata events)) (entries_of (rag_metadata sources)))
