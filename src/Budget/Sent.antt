-- ===== src/Budget/Sent.antt =====
-- From the capped contexts to the messages that a provider is sent: what the cap measured is what
-- `messages_for_provider` adds.
use mathlib.Core.Path.{subst}
use llm_chat_platform.Base.{
  ℕ, ◌+◌, ◌≤◌, ◌≡◌, refl, Bool, true, List, [], ◌∷◌, ◌++◌, map, none, some, Text, length, arith,
  All, All-append_left,
}
use llm_chat_platform.Chat.{ChatMessage, window_chars, window_chars-append}
use llm_chat_platform.Json.{Value}
use llm_chat_platform.Memory.{
  ChatMemoryContext, RetrievedMemoryEvent, event_dict, provider_metadata,
}
use llm_chat_platform.Prompt.{
  all_memory_events, validated_memory_events, validated_sources, prefix_of, messages_for_provider,
  render_memory_events_block, render_rag_sources_block,
}
use llm_chat_platform.Rag.{RagSource, RagGenerationContext, rag_metadata}
use llm_chat_platform.Rag.Sources.{
  Cited, Cited-prefix, IsSoundSource, items-items_of, validated_sources-rag_metadata,
}
use llm_chat_platform.Budget.{documental_chars, evidence_chars, enforce_added_context_cap}
use llm_chat_platform.Budget.Cap.{total_added-enforce}
use llm_chat_platform.Budget.Outcome.{enforce-IsTrimmed}

all_memory_events-map :
    (es : List RetrievedMemoryEvent) → all_memory_events (map event_dict es) ≡ true
all_memory_events-map [] = refl
all_memory_events-map (e ∷ es) = all_memory_events-map es

memory_of :
    (e : RetrievedMemoryEvent) (es : List RetrievedMemoryEvent) (ss : List RagSource)
    → validated_memory_events (provider_metadata (e ∷ es) ss) ≡ some (map event_dict (e ∷ es))
unfolding validated_memory_events provider_metadata
memory_of e es ss = rw (items-items_of (map event_dict es), all_memory_events-map es) refl

no_memory : (ss : List RagSource) → validated_memory_events (provider_metadata [] ss) ≡ none
unfolding validated_memory_events provider_metadata
no_memory [] = refl
no_memory (s ∷ ss) = refl

module _ (is_uuid : Text → Bool) where
  -- The memory channel stands beside the documental one and does not change how it is read.
  sources_beside :
      (es : List RetrievedMemoryEvent) (ss : List RagSource)
      → validated_sources is_uuid (provider_metadata es ss)
        ≡ validated_sources is_uuid (rag_metadata ss)
  unfolding validated_sources provider_metadata
  sources_beside [] [] = refl
  sources_beside [] (s ∷ ss) = refl
  sources_beside (e ∷ es) [] = refl
  sources_beside (e ∷ es) (s ∷ ss) = refl

  no_sources : validated_sources is_uuid (rag_metadata []) ≡ none
  unfolding validated_sources rag_metadata
  no_sources = refl

  window_chars-memory_prefix :
      (es : List RetrievedMemoryEvent) (ss : List RagSource)
      → window_chars
          (prefix_of render_memory_events_block (validated_memory_events (provider_metadata es ss)))
        ≡ evidence_chars es
  unfolding evidence_chars
  window_chars-memory_prefix [] ss = rw (no_memory ss) refl
  window_chars-memory_prefix (e ∷ es) ss = rw (memory_of e es ss) (omega arith)

  window_chars-rag_prefix :
      (es : List RetrievedMemoryEvent) (ss : List RagSource)
      → Cited 0 ss
      → All (IsSoundSource is_uuid) ss
      → window_chars
          (prefix_of render_rag_sources_block (validated_sources is_uuid (provider_metadata es ss)))
        ≡ documental_chars ss
  unfolding documental_chars
  window_chars-rag_prefix es [] c h = rw (sources_beside es [], no_sources) refl
  window_chars-rag_prefix es (s ∷ ss) c h =
      rw
        (
          sources_beside es (s ∷ ss),
          validated_sources-rag_metadata is_uuid (s ∷ ss) (λ e. cc e) c h,
        )
        (omega arith)

  messages_for_provider_lem :
      (metadata : Value) (messages : List ChatMessage)
      → messages_for_provider is_uuid metadata messages
        ≡ prefix_of render_memory_events_block (validated_memory_events metadata)
          ++ (prefix_of render_rag_sources_block (validated_sources is_uuid metadata) ++ messages)
  unfolding messages_for_provider
  messages_for_provider_lem metadata messages = refl

  pub window_chars-messages_for_provider :
      (es : List RetrievedMemoryEvent) (ss : List RagSource) (messages : List ChatMessage)
      → Cited 0 ss
      → All (IsSoundSource is_uuid) ss
      → window_chars (messages_for_provider is_uuid (provider_metadata es ss) messages)
        ≡ evidence_chars es + (documental_chars ss + window_chars messages)
  window_chars-messages_for_provider es ss messages c h =
      rw (messages_for_provider_lem (provider_metadata es ss) messages, window_chars-append)
        (rw
          (window_chars-append, window_chars-memory_prefix es ss, window_chars-rag_prefix es ss c h)
          refl)

  -- A provider is sent at most `max_chars` characters besides the current message: the two
  -- rendered envelopes and the window together, after the cap was enforced, for sources that are
  -- cited S1, S2, and so on with UUIDs that parse and ranks of one or more.
  pub sent_within_cap :
      (m : ChatMemoryContext) (r : RagGenerationContext) (current : ChatMessage) (limit : ℕ)
      → Cited 0 r.sources
      → All (IsSoundSource is_uuid) r.sources
      → let e = enforce_added_context_cap m r current.content limit in
        window_chars (
          messages_for_provider is_uuid
            (provider_metadata e.memory.retrieved_events e.rag.sources)
            (e.memory.messages ++ current ∷ []))
        ≤ limit + length current.content
  sent_within_cap m r current limit c h =
      let e = enforce_added_context_cap m r current.content limit in
      let (rest, split) = (enforce-IsTrimmed m r limit current.content).sources in
      let cited = Cited-prefix 0 e.rag.sources rest (subst (Cited 0) split c) in
      let sound =
        All-append_left (IsSoundSource is_uuid) e.rag.sources rest
          (subst (All (IsSoundSource is_uuid)) split h) in
      omega (
        arith,
        window_chars-messages_for_provider e.memory.retrieved_events e.rag.sources
            (e.memory.messages ++ current ∷ []) cited sound,
        window_chars-append e.memory.messages (current ∷ []),
        total_added-enforce m r limit current.content,
      )
