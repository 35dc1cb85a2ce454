-- ===== src/Budget.antt =====
-- The hard cap on the added context: app/core/domain/added_context_budget.py. A cap that is not
-- positive, which settings.py refuses, is the cap 0.
pub mod Cap
pub mod Outcome
pub mod Order
pub mod Sent
mod Tests
use llm_chat_platform.Base.{
  ℕ, zero, suc, ◌+◌, Bool, true, false, not, ◌&&◌, ◌||◌, List, [], ◌∷◌, map, Option, none, some,
  Text, length, drop_last, is_nil, ltb, leb, if◌then◌else◌,
}
use llm_chat_platform.Chat.{window_chars}
use llm_chat_platform.Memory.{ChatMemoryContext, RetrievedMemoryEvent, event_dict}
use llm_chat_platform.Packer.{pack_recent_window}
use llm_chat_platform.Prompt.{render_memory_events_block, render_rag_sources_block}
use llm_chat_platform.Rag.{RagSource, RagGenerationContext, source_dict}

pub data BudgetOutcome : Type 0 where
  current_message_oversized budget_starved : BudgetOutcome

unfoldable pub documental_chars : List RagSource → ℕ
unfolding render_rag_sources_block
documental_chars [] = 0
documental_chars (s ∷ ss) = length (render_rag_sources_block (map source_dict (s ∷ ss)))

unfoldable pub evidence_chars : List RetrievedMemoryEvent → ℕ
unfolding render_memory_events_block
evidence_chars [] = 0
evidence_chars (e ∷ es) = length (render_memory_events_block (map event_dict (e ∷ es)))

-- `_total()`
abbrev pub total_added : ChatMemoryContext → RagGenerationContext → ℕ
total_added m r =
    documental_chars r.sources + window_chars m.messages + evidence_chars m.retrieved_events

abbrev pub clear_memory : ChatMemoryContext → ChatMemoryContext
clear_memory m = record m {
  messages = [];
  retrieved_events = [];
  truncated = m.truncated || not (is_nil m.messages);
}

abbrev pub clear_sources : RagGenerationContext → RagGenerationContext
clear_sources r = record r { sources = [] }

-- A `while _total() > max_chars and xs: xs = xs[:-1]`, where `rest` is what the other channels
-- hold; the rounds left are the length of `xs`.
unfoldable pub drop_tail {ℓ} :
    {A : Type ℓ} → (List A → ℕ) → (rest limit rounds : ℕ) → List A → List A
drop_tail size rest limit zero xs = xs
drop_tail size rest limit (suc rounds) xs =
    let shorter = drop_tail size rest limit rounds (drop_last xs) in
    if ltb limit (size xs + rest) && not (is_nil xs) then shorter else xs

-- Step 1.
unfoldable pub drop_evidence : ChatMemoryContext → RagGenerationContext → ℕ → ChatMemoryContext
unfolding drop_tail
drop_evidence m r limit = record m {
  retrieved_events =
      drop_tail evidence_chars (documental_chars r.sources + window_chars m.messages) limit
        (length m.retrieved_events) m.retrieved_events;
}

-- Steps 2 and 3.
unfoldable pub pack_window : ChatMemoryContext → RagGenerationContext → ℕ → ChatMemoryContext
unfolding pack_recent_window
pack_window m r limit =
    if ltb limit (total_added m r)
    then (let packed =
          pack_recent_window m.messages limit
            (documental_chars r.sources + evidence_chars m.retrieved_events) in
        record m { messages = packed.messages; truncated = m.truncated || packed.truncated })
    else m

-- Step 4.
unfoldable pub drop_documental : ChatMemoryContext → RagGenerationContext → ℕ → RagGenerationContext
unfolding drop_tail
drop_documental m r limit = record r {
  sources =
      drop_tail documental_chars (window_chars m.messages + evidence_chars m.retrieved_events) limit
        (length r.sources) r.sources;
}

pub record Enforced : Type 0 where
  pub memory : ChatMemoryContext
  pub rag : RagGenerationContext
  pub outcome : Option BudgetOutcome

-- `enforce_added_context_cap` behind its two early returns.
unfoldable pub trim : ChatMemoryContext → RagGenerationContext → ℕ → Enforced
unfolding drop_evidence pack_window drop_documental
trim m r limit =
    let m' = pack_window (drop_evidence m r limit) r limit in
    let r' = drop_documental m' r limit in
    record {
      memory = m';
      rag = r';
      outcome = if ltb (total_added m' r') (total_added m r) then some budget_starved else none;
    }

unfoldable pub enforce_added_context_cap :
    ChatMemoryContext → RagGenerationContext → (current_message : Text) → (max_chars : ℕ) → Enforced
unfolding trim
enforce_added_context_cap m r current limit =
    if ltb 0 limit && leb limit (length current)
    then record {
      memory = clear_memory m;
      rag = clear_sources r;
      outcome = some current_message_oversized;
    }
    else if leb limit 0
    then record {
      memory = clear_memory m;
      rag = clear_sources r;
      outcome = if ltb 0 (total_added m r) then some budget_starved else none;
    }
    else trim m r limit
