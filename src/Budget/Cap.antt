-- ===== src/Budget/Cap.antt =====
-- The cap is hard, and each step takes from the end that it names.
use llm_chat_platform.Base.{
  ℕ, zero, suc, ◌+◌, ◌-◌, ◌≤◌, ◌<◌, ◌≡◌, refl, ◌∙◌, ◌⊎◌, inl, inr, not, ◌&&◌, List, [], ◌∷◌, Text,
  length, drop_last, length-drop_last, is_nil, ltb, leb, arith, Bool-cases, StartsWith,
  StartsWith_refl, StartsWith-trans, StartsWith-drop_last, ltb→lt, lt→ltb, ltb→ge, ge→ltb,
}
use llm_chat_platform.Chat.{window_chars}
use llm_chat_platform.Memory.{ChatMemoryContext}
use llm_chat_platform.Packer.Flag.{window_chars-pack_recent_window}
use llm_chat_platform.Rag.{RagGenerationContext}
use llm_chat_platform.Budget.{
  documental_chars, evidence_chars, total_added, clear_memory, clear_sources, drop_tail,
  drop_evidence, pack_window, drop_documental, trim, enforce_added_context_cap,
}

module _ {ℓ} {A : Type ℓ} (size : List A → ℕ) (rest limit : ℕ) where
  -- Enough rounds are given: the loop ends because its test fails.
  pub drop_tail-ends :
      (n : ℕ) (xs : List A)
      → length xs ≤ n
      → (size (drop_tail size rest limit n xs) + rest ≤ limit)
        ⊎ (drop_tail size rest limit n xs ≡ [])
  unfolding drop_tail
  drop_tail-ends zero [] h = inr refl
  drop_tail-ends zero (x ∷ xs) h = absurd (omega arith)
  drop_tail-ends (suc n) [] h = elim (Bool-cases (ltb limit (size [] + rest))) [
    | inl over ↦ rw over (inr refl)
    | inr fits ↦ rw fits (inl (ltb→ge _ _ fits))
  ]
  drop_tail-ends (suc n) (x ∷ xs) h = elim (Bool-cases (ltb limit (size (x ∷ xs) + rest))) [
    | inl over ↦
        rw over (drop_tail-ends n (drop_last (x ∷ xs)) (omega (arith, length-drop_last (x ∷ xs))))
    | inr fits ↦ rw fits (inl (ltb→ge _ _ fits))
  ]

  pub drop_tail-prefix : (n : ℕ) (xs : List A) → StartsWith (drop_tail size rest limit n xs) xs
  unfolding drop_tail
  drop_tail-prefix zero xs = StartsWith_refl xs
  drop_tail-prefix (suc n) xs = elim (Bool-cases (ltb limit (size xs + rest) && not (is_nil xs))) [
    | inl over ↦ rw over (
        StartsWith-trans _ (drop_last xs) xs (drop_tail-prefix n (drop_last xs))
          (StartsWith-drop_last xs))
    | inr fits ↦ rw fits (StartsWith_refl xs)
  ]

  pub drop_tail_fits :
      (n : ℕ) (xs : List A) → size xs + rest ≤ limit → drop_tail size rest limit n xs ≡ xs
  unfolding drop_tail
  drop_tail_fits zero xs h = refl
  drop_tail_fits (suc n) xs h = rw (ge→ltb _ _ h) refl

pub pack_window-fits :
    (m : ChatMemoryContext) (r : RagGenerationContext) (limit : ℕ)
    → total_added m r ≤ limit
    → pack_window m r limit ≡ m
unfolding pack_window
pack_window-fits m r limit h = rw (ge→ltb _ _ h) refl

pub pack_window-over :
    (m : ChatMemoryContext) (r : RagGenerationContext) (limit : ℕ)
    → limit < total_added m r
    → (window_chars (pack_window m r limit).messages
        ≤ limit - (documental_chars r.sources + evidence_chars m.retrieved_events))
      × ((pack_window m r limit).retrieved_events ≡ m.retrieved_events)
unfolding pack_window
pack_window-over m r limit h = rw (lt→ltb _ _ h) (
  window_chars-pack_recent_window m.messages limit
      (documental_chars r.sources + evidence_chars m.retrieved_events),
  refl,
)

pub drop_evidence-ends :
    (m : ChatMemoryContext) (r : RagGenerationContext) (limit : ℕ)
    → (total_added (drop_evidence m r limit) r ≤ limit)
      ⊎ ((drop_evidence m r limit).retrieved_events ≡ [])
unfolding drop_evidence
drop_evidence-ends m r limit =
    let rest = documental_chars r.sources + window_chars m.messages in
    elim (drop_tail-ends evidence_chars rest limit (length m.retrieved_events) m.retrieved_events
      (omega arith)) [ inl fits ↦ inl (omega arith) | inr all_gone ↦ inr all_gone ]

drop_documental-ends :
    (m : ChatMemoryContext) (r : RagGenerationContext) (limit : ℕ)
    → (total_added m (drop_documental m r limit) ≤ limit)
      ⊎ ((drop_documental m r limit).sources ≡ [])
unfolding drop_documental
drop_documental-ends m r limit =
    let rest = window_chars m.messages + evidence_chars m.retrieved_events in
    elim (drop_tail-ends documental_chars rest limit (length r.sources) r.sources (omega arith)) [
      | inl fits ↦ inl (omega arith)
      | inr all_gone ↦ inr all_gone
    ]

pub drop_documental-fits :
    (m : ChatMemoryContext) (r : RagGenerationContext) (limit : ℕ)
    → total_added m r ≤ limit
    → drop_documental m r limit ≡ r
unfolding drop_documental
drop_documental-fits m r limit h =
    rw
      (drop_tail_fits documental_chars (window_chars m.messages + evidence_chars m.retrieved_events)
        limit (length r.sources) r.sources (omega arith))
      refl

pub no_evidence :
    (m : ChatMemoryContext) → m.retrieved_events ≡ [] → evidence_chars m.retrieved_events ≡ 0
unfolding evidence_chars
no_evidence m e = rw e refl

no_sources : (r : RagGenerationContext) → r.sources ≡ [] → documental_chars r.sources ≡ 0
unfolding documental_chars
no_sources r e = rw e refl

-- Step 4 after step 3, when step 1 has dropped all the evidence.
documental_last :
    (m : ChatMemoryContext) (r : RagGenerationContext) (limit : ℕ)
    → window_chars m.messages ≤ limit
    → m.retrieved_events ≡ []
    → total_added m (drop_documental m r limit) ≤ limit
documental_last m r limit w e = elim (drop_documental-ends m r limit) [
  | inl fits ↦ fits
  | inr all_gone ↦ omega (arith, no_evidence m e, no_sources (drop_documental m r limit) all_gone)
]

module _ (m : ChatMemoryContext) (r : RagGenerationContext) (limit : ℕ) where
  -- The memory context after step 1, and after steps 2 and 3.
  abbrev pub after_evidence : ChatMemoryContext
  after_evidence = drop_evidence m r limit

  abbrev pub after_window : ChatMemoryContext
  after_window = pack_window after_evidence r limit

  trim-le_fits :
      total_added after_evidence r ≤ limit
      → total_added after_window (drop_documental after_window r limit) ≤ limit
  trim-le_fits h =
      rw (pack_window-fits after_evidence r limit h, drop_documental-fits after_evidence r limit h)
        h

  trim-le_over :
      limit < total_added after_evidence r
      → total_added after_window (drop_documental after_window r limit) ≤ limit
  trim-le_over h =
      let (window, same) = pack_window-over after_evidence r limit h in
      let gone : after_evidence.retrieved_events ≡ [] = elim (drop_evidence-ends m r limit) [
        | inl fits ↦ absurd (omega arith)
        | inr e ↦ e
      ] in
      documental_last after_window r limit (omega arith) (same ∙ gone)

  pub trim-le : total_added (trim m r limit).memory (trim m r limit).rag ≤ limit
  unfolding trim
  trim-le = elim (Bool-cases (ltb limit (total_added after_evidence r))) [
    | inl over ↦ trim-le_over (ltb→lt _ _ over)
    | inr fits ↦ trim-le_fits (ltb→ge _ _ fits)
  ]

  cleared : total_added (clear_memory m) (clear_sources r) ≡ 0
  unfolding documental_chars evidence_chars
  cleared = refl

  -- Whatever the three channels hold, what is left of them renders to at most `max_chars`
  -- characters in all.
  pub total_added-enforce :
      (current : Text)
      → total_added
          (enforce_added_context_cap m r current limit).memory
          (enforce_added_context_cap m r current limit).rag
        ≤ limit
  unfolding enforce_added_context_cap
  total_added-enforce current = elim (Bool-cases (ltb 0 limit && leb limit (length current))) [
    | inl oversized ↦ rw oversized (omega (arith, cleared))
    | inr small ↦ elim (Bool-cases (leb limit 0)) [
      | inl no_budget ↦ rw (small, no_budget) (omega (arith, cleared))
      | inr budget ↦ rw (small, budget) trim-le
    ]
  ]
