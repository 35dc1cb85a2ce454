-- ===== src/Budget/Outcome.antt =====
-- What is reported, what is kept, and in which order the channels are given up.
use mathlib.Core.Path.{subst}
use llm_chat_platform.Base.{
  ℕ, ◌+◌, ◌≤◌, ◌<◌, ◌≡◌, refl, sym, ap, ◌∙◌, ◌⊎◌, inl, inr, ◌↔◌, Bool, true, false, not, ◌&&◌, ◌||◌,
  List, [], ◌∷◌, map, Option, none, some, Text, length, is_nil, ltb, leb, if◌then◌else◌, arith,
  Bool-cases, StartsWith, ltb→lt, lt→ltb, ltb→ge, ge→ltb,
}
use llm_chat_platform.Chat.{ChatMessage, window_chars, role_of, Alternates}
use llm_chat_platform.Memory.{ChatMemoryContext}
use llm_chat_platform.Packer.{pack_recent_window}
use llm_chat_platform.Packer.Flag.{pack_recent_window-truncated_iff, pack_recent_window-Alternates}
use llm_chat_platform.Rag.{RagGenerationContext}
use llm_chat_platform.Budget.{
  BudgetOutcome, budget_starved, documental_chars, evidence_chars, total_added, clear_memory,
  clear_sources, drop_evidence, pack_window, drop_documental, Enforced, trim,
  enforce_added_context_cap,
}
use llm_chat_platform.Budget.Cap.{
  drop_tail-prefix, drop_tail_fits, pack_window-fits, drop_documental-fits, after_window, trim-le,
}

drop_evidence-fits :
    (m : ChatMemoryContext) (r : RagGenerationContext) (limit : ℕ)
    → total_added m r ≤ limit
    → drop_evidence m r limit ≡ m
unfolding drop_evidence
drop_evidence-fits m r limit h =
    rw
      (drop_tail_fits evidence_chars (documental_chars r.sources + window_chars m.messages) limit
        (length m.retrieved_events) m.retrieved_events (omega arith))
      refl

pub trim_lem :
    (m : ChatMemoryContext) (r : RagGenerationContext) (limit : ℕ)
    → let m' = after_window m r limit in
      let r' = drop_documental m' r limit in
      trim m r limit ≡ record {
        memory = m';
        rag = r';
        outcome = if ltb (total_added m' r') (total_added m r) then some budget_starved else none;
      }
unfolding trim
trim_lem m r limit = refl

trim_fits :
    (m : ChatMemoryContext) (r : RagGenerationContext) (limit : ℕ)
    → total_added m r ≤ limit
    → trim m r limit ≡ record { memory = m; rag = r; outcome = none }
trim_fits m r limit h =
    trim_lem m r limit
    ∙ rw
        (
          drop_evidence-fits m r limit h,
          pack_window-fits m r limit h,
          drop_documental-fits m r limit h,
        )
        (rw (ge→ltb (total_added m r) (total_added m r) (omega arith)) refl)

trim_over :
    (m : ChatMemoryContext) (r : RagGenerationContext) (limit : ℕ)
    → limit < total_added m r
    → (trim m r limit).outcome ≡ some budget_starved
trim_over m r limit h =
    let less : total_added (trim m r limit).memory (trim m r limit).rag < total_added m r =
      omega (arith, trim-le m r limit) in
    outcome_of less
  where
    outcome_of :
        total_added (trim m r limit).memory (trim m r limit).rag < total_added m r
        → (trim m r limit).outcome ≡ some budget_starved
    outcome_of less = unfold trim in rw (lt→ltb _ _ less) refl

enforce-eq-trim :
    (m : ChatMemoryContext) (r : RagGenerationContext) (current : Text) (limit : ℕ)
    → length current < limit
    → enforce_added_context_cap m r current limit ≡ trim m r limit
unfolding enforce_added_context_cap
enforce-eq-trim m r current limit h =
    let small : leb limit (length current) ≡ false = ground arith in
    let budget : leb limit 0 ≡ false = ground arith in
    let positive : ltb 0 limit ≡ true = ground arith in rw (small, budget, positive) refl

-- Under a positive cap and with a current message below it: added context that fits is returned
-- as it is with no outcome, and otherwise the outcome is `budget_starved`.
pub enforce_outcome :
    (m : ChatMemoryContext) (r : RagGenerationContext) (current : Text) (limit : ℕ)
    → length current < limit
    → ((total_added m r ≤ limit)
        × (enforce_added_context_cap m r current limit
            ≡ record { memory = m; rag = r; outcome = none }))
      ⊎ ((limit < total_added m r)
          × ((enforce_added_context_cap m r current limit).outcome ≡ some budget_starved))
enforce_outcome m r current limit h =
    let enforced : enforce_added_context_cap m r current limit ≡ trim m r limit =
      enforce-eq-trim m r current limit h in
    elim (Bool-cases (ltb limit (total_added m r))) [
      | inl over ↦ inr (
        ltb→lt _ _ over,
        ap (λ (e : Enforced). e.outcome) enforced ∙ trim_over m r limit (ltb→lt _ _ over),
      )
      | inr fits ↦ inl (ltb→ge _ _ fits, enforced ∙ trim_fits m r limit (ltb→ge _ _ fits))
    ]

abbrev pub FlagIff : ChatMemoryContext → ChatMemoryContext → Type 0
FlagIff m out = (out.truncated ≡ false) ↔ ((m.truncated ≡ false) × (out.messages ≡ m.messages))

-- What enforcement keeps of the two contexts, whatever the branch.
pub record IsTrimmed (m : ChatMemoryContext) (r : RagGenerationContext) (e : Enforced)
    : Type 0 where
  pub sources : StartsWith e.rag.sources r.sources
  pub retrieval : e.rag.outcome ≡ r.outcome
  pub events : StartsWith e.memory.retrieved_events m.retrieved_events
  pub row_cap : e.memory.history_row_cap_reached ≡ m.history_row_cap_reached
  pub flag : FlagIff m e.memory
  pub alternates : Alternates (map role_of m.messages) → Alternates (map role_of e.memory.messages)

flag-or : (b c : Bool) {P : Type 0} → (c ≡ false) ↔ P → ((b || c) ≡ false) ↔ ((b ≡ false) × P)
flag-or false c (to, from) = (λ h. (refl, to h), λ h. from h.1)
flag-or true c (to, from) = (λ h. cc, λ h. cc (h.0))

cleared_flag :
    (ms : List ChatMessage) → (not (is_nil ms) ≡ false) ↔ (◌≡◌ {A = List ChatMessage} [] ms)
cleared_flag [] = (λ _. refl, λ _. refl)
cleared_flag (m ∷ ms) = (λ h. cc, λ h. cc)

module _ (m : ChatMemoryContext) (r : RagGenerationContext) where
  cleared-IsTrimmed :
      (o : Option BudgetOutcome)
      → IsTrimmed m r (record { memory = clear_memory m; rag = clear_sources r; outcome = o })
  cleared-IsTrimmed o = record {
    sources = (r.sources, refl);
    retrieval = refl;
    events = (m.retrieved_events, refl);
    row_cap = refl;
    flag = flag-or m.truncated (not (is_nil m.messages)) (cleared_flag m.messages);
    alternates = λ _. tt;
  }

  pack_window-flag : (limit : ℕ) → FlagIff m (pack_window m r limit)
  unfolding pack_window
  pack_window-flag limit =
      let reserved = documental_chars r.sources + evidence_chars m.retrieved_events in
      elim (Bool-cases (ltb limit (total_added m r))) [
        | inl over ↦ rw over (
            flag-or m.truncated (pack_recent_window m.messages limit reserved).truncated
              (pack_recent_window-truncated_iff m.messages limit reserved))
        | inr fits ↦ rw fits (λ h. (h, refl), λ h. h.0)
      ]

  pack_window-Alternates :
      (limit : ℕ)
      → Alternates (map role_of m.messages)
      → Alternates (map role_of (pack_window m r limit).messages)
  unfolding pack_window
  pack_window-Alternates limit h = elim (Bool-cases (ltb limit (total_added m r))) [
    | inl over ↦ rw over (
        pack_recent_window-Alternates m.messages limit
          (documental_chars r.sources + evidence_chars m.retrieved_events) h)
    | inr fits ↦ rw fits h
  ]

  pack_window-rest :
      (limit : ℕ)
      → ((pack_window m r limit).retrieved_events ≡ m.retrieved_events)
        × ((pack_window m r limit).history_row_cap_reached ≡ m.history_row_cap_reached)
  unfolding pack_window
  pack_window-rest limit = ground arith

module _ (m : ChatMemoryContext) (r : RagGenerationContext) (limit : ℕ) where
  pub drop_evidence-rest :
      StartsWith (drop_evidence m r limit).retrieved_events m.retrieved_events
      × ((drop_evidence m r limit).messages ≡ m.messages)
      × ((drop_evidence m r limit).truncated ≡ m.truncated)
      × ((drop_evidence m r limit).history_row_cap_reached ≡ m.history_row_cap_reached)
  unfolding drop_evidence
  drop_evidence-rest = (
    drop_tail-prefix evidence_chars (documental_chars r.sources + window_chars m.messages) limit
        (length m.retrieved_events) m.retrieved_events,
    refl,
    refl,
    refl,
  )

  drop_documental-rest :
      (n : ChatMemoryContext)
      → StartsWith (drop_documental n r limit).sources r.sources
        × ((drop_documental n r limit).outcome ≡ r.outcome)
  unfolding drop_documental
  drop_documental-rest n = (
    drop_tail-prefix documental_chars (window_chars n.messages + evidence_chars n.retrieved_events)
        limit (length r.sources) r.sources,
    refl,
  )

  trim-IsTrimmed : IsTrimmed m r (trim m r limit)
  trim-IsTrimmed =
      let n = drop_evidence m r limit in
      let (events, messages, flag, cap_reached) = drop_evidence-rest in
      let (same_events, same_cap) = pack_window-rest n r limit in
      let (sources, retrieval) = drop_documental-rest (after_window m r limit) in
      let packed = pack_window-flag n r limit in
      rw (trim_lem m r limit) (record {
        sources = sources;
        retrieval = retrieval;
        events = rw same_events events;
        row_cap = same_cap ∙ cap_reached;
        flag =
            subst
              (λ b.
                ((pack_window n r limit).truncated ≡ false)
                ↔ ((b ≡ false) × ((pack_window n r limit).messages ≡ m.messages)))
              flag
              (subst
                (λ ms.
                  ((pack_window n r limit).truncated ≡ false)
                  ↔ ((n.truncated ≡ false) × ((pack_window n r limit).messages ≡ ms)))
                messages packed);
        alternates = λ h.
            pack_window-Alternates n r limit
              (subst (λ ms. Alternates (map role_of ms)) (sym messages) h);
      })

  -- On every branch the sources and the evidence lose only their last items, the retrieval outcome
  -- and `history_row_cap_reached` stay, a window that alternates goes on alternating, and
  -- `truncated` says exactly whether it was set before or the window was changed.
  pub enforce-IsTrimmed :
      (current : Text) → IsTrimmed m r (enforce_added_context_cap m r current limit)
  unfolding enforce_added_context_cap
  enforce-IsTrimmed current = elim (Bool-cases (ltb 0 limit && leb limit (length current))) [
    | inl oversized ↦ rw oversized (cleared-IsTrimmed m r _)
    | inr small ↦ elim (Bool-cases (leb limit 0)) [
      | inl no_budget ↦ rw (small, no_budget) (cleared-IsTrimmed m r _)
      | inr budget ↦ rw (small, budget) trim-IsTrimmed
    ]
  ]
