-- ===== src/Trace/Report.antt =====
-- When a trace is reported: `reconstruct_by_request_id` of app/services/trace.py.
use mathlib.Core.Path.{subst}
use llm_chat_platform.Base.{
  ◌≡◌, ◌≢◌, refl, sym, ap, ◌∙◌, ℕ, Bool, true, false, Bool-cases, ◌⊎◌, inl, inr, Option, none, some,
  Option-cases, List, [], ◌∷◌, ◌++◌, Text, ◌==◌, arith, Result, ok, err, unbound_local, value_error,
  All,
}
use llm_chat_platform.Trace.{
  Message, UsageEvent, Coherence, TraceReport, Reconstruction, is_str_success, select_primary_event,
  event_checks, resolve_conversation, with_conversation, with_messages, with_pair, reconstruct_pair,
  reconstruct_by_request_id,
}
use llm_chat_platform.Trace.Pair.{
  IsPaired, paired, unbound, reconstruct_pair-IsPaired, reconstruct_pair-IsUnpaired,
}

-- The first message with an id is not absent.
All-absent :
    (i : ℕ) (pre : List Message) (m : Message) (post : List Message)
    → m.id ≡ i
    → All (λ x. (x.id == i) ≡ false) (pre ++ m ∷ post)
    → ⊥
All-absent i [] m post same (off, others) = ground (arith, same, off)
All-absent i (x ∷ pre) m post same (off, others) = All-absent i pre m post same others

-- An output id that matches no message.
abbrev pub IsAbsent : List Message → Option ℕ → Type 0
IsAbsent ms none = ⊥
IsAbsent ms (some i) = All (λ m. (m.id == i) ≡ false) ms

-- A pair is reconstructed exactly unless an output id matches no message.
reconstruct_pair-cases :
    (ms : List Message) (o : Option ℕ)
    → ((r : Reconstruction) × (reconstruct_pair ms o ≡ ok r) × ¬ (IsAbsent ms o))
      ⊎ (IsAbsent ms o × (reconstruct_pair ms o ≡ err unbound_local))
reconstruct_pair-cases ms none =
    let (r, pair, _) = reconstruct_pair-IsUnpaired ms in inl (r, pair, λ h. h)
reconstruct_pair-cases ms (some output) =
    from (reconstruct_pair ms (some output)) refl (reconstruct_pair-IsPaired ms output)
  where
    from :
        (o : Result Reconstruction)
        → reconstruct_pair ms (some output) ≡ o
        → IsPaired ms output o
        → ((r : Reconstruction) × (reconstruct_pair ms (some output) ≡ ok r)
            × ¬ (IsAbsent ms (some output)))
          ⊎ (IsAbsent ms (some output) × (reconstruct_pair ms (some output) ≡ err unbound_local))
    from (ok _) eq (paired pre m post parts same others input nearest_one) = inl (
      _,
      eq,
      λ absent.
          All-absent output pre m post same
            (subst (λ t. All (λ x. (x.id == output) ≡ false) t) parts absent),
    )
    from (err _) eq (unbound absent) = inr (absent, eq)

same_id : {o : Option ℕ} {i j : ℕ} → o ≡ some i → o ≡ some j → i ≡ j
same_id a b = cc (a, b)

module _ (lower : Text → Text) (is_space : ℕ → Bool) where
  -- The primary event, of events from the newest to the oldest: the newest that succeeded, or the
  -- newest if none did.
  pub data IsPrimary (events : List UsageEvent) (e : UsageEvent) : Type 0 where
    newest_success :
        (newer older : List UsageEvent)
        → events ≡ newer ++ e ∷ older
        → All (λ x. is_str_success lower is_space x ≡ false) newer
        → is_str_success lower is_space e ≡ true
        → IsPrimary events e
    no_success :
        (older : List UsageEvent)
        → events ≡ e ∷ older
        → All (λ x. is_str_success lower is_space x ≡ false) events
        → IsPrimary events e

  -- The walk finds the first success, or falls back.
  select_primary_event-cases :
      (newest : UsageEvent) (events : List UsageEvent)
      → ((newer : List UsageEvent) × (older : List UsageEvent) × (events
            ≡ newer ++ select_primary_event lower is_space newest events ∷ older)
          × All (λ x. is_str_success lower is_space x ≡ false) newer
          × (is_str_success lower is_space (select_primary_event lower is_space newest events)
              ≡ true))
        ⊎ (All (λ x. is_str_success lower is_space x ≡ false) events
            × (select_primary_event lower is_space newest events ≡ newest))
  unfolding select_primary_event
  select_primary_event-cases newest [] = inr (tt, refl)
  select_primary_event-cases newest (e ∷ es) = elim (Bool-cases (is_str_success lower is_space e)) [
    | inl passes ↦ inl (rw passes ([], es, refl, tt, passes))
    | inr fails ↦ elim (select_primary_event-cases newest es) [
      | inl (newer, older, parts, others, passes) ↦
          inl (rw fails (e ∷ newer, older, ap (λ t. e ∷ t) parts, (fails, others), passes))
      | inr (others, same) ↦ inr ((fails, others), rw fails same)
    ]
  ]

  select_primary_event-IsPrimary :
      (e : UsageEvent) (es : List UsageEvent)
      → IsPrimary (e ∷ es) (select_primary_event lower is_space e (e ∷ es))
  select_primary_event-IsPrimary e es = elim (select_primary_event-cases e (e ∷ es)) [
    | inl (newer, older, parts, others, passes) ↦ newest_success newer older parts others passes
    | inr (others, same) ↦ no_success es (ap (λ x. x ∷ es) (sym same)) others
  ]

  -- The primary event's conversation is found and has messages, and the output that the event names
  -- is none of them.
  pub record LacksOutput (find_conversation : ℕ → Option ℕ) (messages_of : ℕ → List Message)
      (primary : UsageEvent) : Type 0 where
    pub id : ℕ
    pub conversation : ℕ
    pub named : primary.conversation_id ≡ some id
    pub found : find_conversation id ≡ some conversation
    pub held : messages_of id ≢ []
    pub absent : IsAbsent (messages_of id) primary.message_id

  -- The ways in which the reconstruction ends.
  pub data IsTraced (find_conversation : ℕ → Option ℕ) (messages_of : ℕ → List Message)
      (events : List UsageEvent) : Result TraceReport → Type 0 where
    no_events : events ≡ [] → IsTraced find_conversation messages_of events (err value_error)
    no_output :
        (primary : UsageEvent)
        → IsPrimary events primary
        → LacksOutput find_conversation messages_of primary
        → IsTraced find_conversation messages_of events (err unbound_local)
    reported :
        (r : TraceReport)
        → IsPrimary events r.primary_event
        → r.events ≡ events
        → ¬ (LacksOutput find_conversation messages_of r.primary_event)
        → IsTraced find_conversation messages_of events (ok r)

  module _ (find_conversation : ℕ → Option ℕ) (messages_of : ℕ → List Message)
      (events : List UsageEvent) (primary : UsageEvent) (chosen : IsPrimary events primary)
      (c : Coherence) where
    abbrev Traced : Result TraceReport → Type 0
    Traced = IsTraced find_conversation messages_of events

    with_messages-IsTraced :
        (i conversation : ℕ)
        → primary.conversation_id ≡ some i
        → find_conversation i ≡ some conversation
        → (ms : List Message) → messages_of i ≡ ms
        → Traced (with_messages lower is_space c primary conversation ms events)
    unfolding with_messages
    with_messages-IsTraced i conversation named found [] eq =
        reported _ chosen refl λ l. l.held (ap messages_of (same_id l.named named) ∙ eq)
    with_messages-IsTraced i conversation named found (m ∷ ms) eq =
        elim (reconstruct_pair-cases (m ∷ ms) primary.message_id) [
          | inl (r, pair, present) ↦
              subst
                (λ o. Traced (with_pair lower is_space c primary conversation (m ∷ ms) events o))
                (sym pair)
                (reported _ chosen refl λ l. present (
                  subst (λ t. IsAbsent t primary.message_id)
                    (ap messages_of (same_id l.named named) ∙ eq) l.absent))
          | inr (missed, pair) ↦
              subst
                (λ o. Traced (with_pair lower is_space c primary conversation (m ∷ ms) events o))
                (sym pair)
                (no_output primary chosen record {
                  id = i;
                  conversation = conversation;
                  named = named;
                  found = found;
                  held = λ none_held. cc none_held;
                  absent = subst (λ t. IsAbsent t primary.message_id) (sym eq) missed;
                })
        ]

    resolve_conversation-IsTraced :
        (o : Option ℕ)
        → primary.conversation_id ≡ o
        → Traced
            (resolve_conversation lower is_space find_conversation messages_of c primary events o)
    unfolding resolve_conversation with_conversation
    resolve_conversation-IsTraced none named = reported _ chosen refl λ l. cc (l.named, named)
    resolve_conversation-IsTraced (some i) named = elim (Option-cases (find_conversation i)) [
      | inl lost ↦ rw lost (
          reported _ chosen refl
            λ l. cc (l.found, ap find_conversation (same_id l.named named), lost))
      | inr (conversation, found) ↦
          rw found (with_messages-IsTraced i conversation named found (messages_of i) refl)
    ]

  -- A trace is reported, for the newest successful event or the newest event if none succeeded (the
  -- events run from the newest to the oldest), with all the events; or the request has no event and
  -- the call is refused (ValueError); or the conversation of the primary event is found and has
  -- messages, but not the output message that the event names, and the call fails on a variable that
  -- is not bound. In that last case no trace is reported.
  pub reconstruct_by_request_id-IsTraced :
      (find_conversation : ℕ → Option ℕ) (messages_of : ℕ → List Message) (events : List UsageEvent)
      → IsTraced find_conversation messages_of events
          (reconstruct_by_request_id lower is_space find_conversation messages_of events)
  unfolding reconstruct_by_request_id
  reconstruct_by_request_id-IsTraced find_conversation messages_of [] = no_events refl
  reconstruct_by_request_id-IsTraced find_conversation messages_of (e ∷ es) =
      resolve_conversation-IsTraced find_conversation messages_of (e ∷ es) _
        (select_primary_event-IsPrimary e es)
        (event_checks lower is_space (e ∷ es) (select_primary_event lower is_space e (e ∷ es))) _
        refl
