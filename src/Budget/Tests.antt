-- ===== src/Budget/Tests.antt =====
-- The theorems on the added context at a concrete request, whose evidence does not fit.
use llm_chat_platform.Base.{
  ◌+◌, ◌≤◌, ◌<◌, ◌≡◌, ◌⊎◌, refl, true, false, [], ◌∷◌, ◌++◌, none, some, Text, codes, length, ◌==◌,
  Bool, arith,
}
use llm_chat_platform.Base.Int.{pos}
use llm_chat_platform.Chat.{ChatMessage, user, assistant, window_chars}
use llm_chat_platform.Memory.{ChatMemoryContext, provider_metadata}
use llm_chat_platform.Prompt.{messages_for_provider}
use llm_chat_platform.Rag.{RagGenerationContext, retrieved}
use llm_chat_platform.Budget.{
  Enforced, budget_starved, documental_chars, evidence_chars, total_added,
  enforce_added_context_cap,
}
use llm_chat_platform.Budget.Cap.{total_added-enforce}
use llm_chat_platform.Budget.Outcome.{IsTrimmed, enforce-IsTrimmed, enforce_outcome}
use llm_chat_platform.Budget.Order.{IsOrderly, enforce-IsOrderly}
use llm_chat_platform.Budget.Sent.{sent_within_cap}

abbrev has_uuid_length : Text → Bool
has_uuid_length t = length t == 36

abbrev doc : Text
doc = codes "7d444840-9dc0-11d1-b245-5ffdce74fad2"

abbrev memory : ChatMemoryContext
memory = record {
  messages =
      record { role = user; content = codes "hello" }
      ∷ record { role = assistant; content = codes "hi" }
      ∷ [];
  truncated = false;
  history_row_cap_reached = true;
  retrieved_events = record { event_id = 3; content = codes "long ago" } ∷ [];
}

abbrev rag : RagGenerationContext
rag = record {
  sources =
      record {
        citation = codes "S1";
        document_id = doc;
        chunk_id = doc;
        rank = pos 1;
        content = codes "first";
        truncated = false;
      }
      ∷ [];
  outcome = some retrieved;
}

abbrev current : ChatMessage
current = record { role = user; content = codes "and now?" }

abbrev enforced : Enforced
enforced = enforce_added_context_cap memory rag current.content 700

-- The evidence goes, the rest stays.
enforced_run : enforced ≡ record {
  memory = record memory { retrieved_events = [] };
  rag = rag;
  outcome = some budget_starved;
}
unfolding enforce_added_context_cap documental_chars evidence_chars
enforced_run = refl

sent_within_cap_example :
    window_chars (
      messages_for_provider has_uuid_length
        (provider_metadata enforced.memory.retrieved_events enforced.rag.sources)
        (enforced.memory.messages ++ current ∷ []))
    ≤ 700 + length current.content
unfolding llm_chat_platform.Prompt.citation
sent_within_cap_example =
    sent_within_cap has_uuid_length memory rag current 700 (refl, tt)
      ((refl, refl, omega arith), tt)

total_added-enforce_example : total_added enforced.memory enforced.rag ≤ 700
total_added-enforce_example = total_added-enforce memory rag 700 current.content

enforce-IsTrimmed_example : IsTrimmed memory rag enforced
enforce-IsTrimmed_example = enforce-IsTrimmed memory rag 700 current.content

enforce-IsOrderly_example : IsOrderly memory rag 700 enforced
enforce-IsOrderly_example = enforce-IsOrderly memory rag 700 current.content

enforce_outcome_example :
    ((total_added memory rag ≤ 700)
      × (enforced ≡ record { memory = memory; rag = rag; outcome = none }))
    ⊎ ((700 < total_added memory rag) × (enforced.outcome ≡ some budget_starved))
enforce_outcome_example = enforce_outcome memory rag current.content 700 (omega arith)
