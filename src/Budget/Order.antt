-- ===== src/Budget/Order.antt =====
-- The order in which the added context is given up.
use llm_chat_platform.Base.{
  ℕ, ◌+◌, ◌≤◌, ◌<◌, ◌≡◌, ◌≢◌, refl, ap, ◌∙◌, inl, inr, ◌&&◌, [], Option, Text, length, ltb, leb,
  arith, Bool-cases, ltb→lt, lt→ltb, ltb→ge, leb→le, leb→gt,
}
use llm_chat_platform.Memory.{ChatMemoryContext}
use llm_chat_platform.Packer.Bounds.{packed_when_full}
use llm_chat_platform.Rag.{RagGenerationContext}
use llm_chat_platform.Budget.{
  BudgetOutcome, documental_chars, evidence_chars, total_added, clear_memory, clear_sources,
  drop_evidence, pack_window, Enforced, trim, enforce_added_context_cap,
}
use llm_chat_platform.Budget.Cap.{
  pack_window-fits, pack_window-over, drop_evidence-ends, drop_documental-fits, no_evidence,
  after_window,
}
use llm_chat_platform.Budget.Outcome.{trim_lem, drop_evidence-rest}

pack_window-full :
    (m : ChatMemoryContext) (r : RagGenerationContext) (limit : ℕ)
    → limit < total_added m r
    → limit ≤ documental_chars r.sources + evidence_chars m.retrieved_events
    → (pack_window m r limit).messages ≡ []
unfolding pack_window
pack_window-full m r limit over full =
    rw (lt→ltb _ _ over, packed_when_full m.messages limit _ full) refl

module _ (m : ChatMemoryContext) (r : RagGenerationContext) (limit : ℕ) where
  -- The order in which the channels are given up.
  pub record IsOrderly (e : Enforced) : Type 0 where
    pub window_after_evidence : e.memory.messages ≢ m.messages → e.memory.retrieved_events ≡ []
    pub sources_last :
        e.rag.sources ≢ r.sources → (e.memory.messages ≡ []) × (e.memory.retrieved_events ≡ [])

  cleared-IsOrderly :
      (o : Option BudgetOutcome)
      → IsOrderly (record { memory = clear_memory m; rag = clear_sources r; outcome = o })
  cleared-IsOrderly o = record {
    window_after_evidence = λ _. refl;
    sources_last = λ _. (refl, refl);
  }

  -- What step 1 leaves fits: nothing else is touched.
  IsOrderly-fits : total_added (drop_evidence m r limit) r ≤ limit → IsOrderly (trim m r limit)
  IsOrderly-fits h =
      let n = drop_evidence m r limit in
      let (_, messages, _, _) = drop_evidence-rest m r limit in
      rw (trim_lem m r limit) (
        rw (pack_window-fits n r limit h, drop_documental-fits n r limit h)
          (record {
            window_after_evidence = λ changed. absurd (changed messages);
            sources_last = λ changed. absurd (changed refl);
          }))

  IsOrderly-over : limit < total_added (drop_evidence m r limit) r → IsOrderly (trim m r limit)
  IsOrderly-over h =
      let n = drop_evidence m r limit in
      let (window, same) = pack_window-over n r limit h in
      let gone : n.retrieved_events ≡ [] = elim (drop_evidence-ends m r limit) [
        | inl fits ↦ absurd (omega arith)
        | inr e ↦ e
      ] in
      let none_left : (after_window m r limit).retrieved_events ≡ [] = same ∙ gone in
      rw (trim_lem m r limit) (record {
        window_after_evidence = λ _. none_left;
        sources_last = λ changed.
            elim (Bool-cases
              (leb limit (documental_chars r.sources + evidence_chars n.retrieved_events))) [
                | inl full ↦ (pack_window-full n r limit h (leb→le _ _ full), none_left)
                | inr room ↦
                    let fits : total_added (after_window m r limit) r ≤ limit =
                      omega
                        (arith, leb→gt _ _ room, no_evidence (after_window m r limit) none_left) in
                    absurd (
                      changed (
                        ap (λ (c : RagGenerationContext). c.sources)
                          (drop_documental-fits (after_window m r limit) r limit fits)))
              ];
      })

  -- The window loses something only when no evidence is left, and documental sources are lost
  -- only when neither evidence nor window is left.
  pub enforce-IsOrderly : (current : Text) → IsOrderly (enforce_added_context_cap m r current limit)
  unfolding enforce_added_context_cap
  enforce-IsOrderly current = elim (Bool-cases (ltb 0 limit && leb limit (length current))) [
    | inl oversized ↦ rw oversized (cleared-IsOrderly _)
    | inr small ↦ elim (Bool-cases (leb limit 0)) [
      | inl no_budget ↦ rw (small, no_budget) (cleared-IsOrderly _)
      | inr budget ↦
          rw (small, budget)
            (elim (Bool-cases (ltb limit (total_added (drop_evidence m r limit) r))) [
              | inl over ↦ IsOrderly-over (ltb→lt _ _ over)
              | inr fits ↦ IsOrderly-fits (ltb→ge _ _ fits)
            ])
    ]
  ]
