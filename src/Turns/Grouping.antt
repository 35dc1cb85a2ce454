-- ===== src/Turns/Grouping.antt =====
-- Grouping is total: nothing is lost, and every unit is a turn or a single message.
use llm_chat_platform.Base.{
  ◌≡◌, refl, ap, ◌⊎◌, inl, inr, Bool, true, false, ◌&&◌, List, [], ◌∷◌, flat_map, All, arith,
  Bool-cases,
}
use llm_chat_platform.Chat.{is_user, is_assistant}
use llm_chat_platform.History.{HistoryMessage}
use llm_chat_platform.Turns.{TurnUnit, messages_of, unit_of, is_turn, group_turns}

-- A unit is one message, or a user message and the answer to it.
abbrev pub IsUnit : TurnUnit → Type 0
IsUnit u =
    ((m : HistoryMessage) × (u ≡ unit_of (m ∷ [])))
    ⊎ ((m : HistoryMessage) × (n : HistoryMessage) × (u ≡ unit_of (m ∷ n ∷ []))
        × (is_turn (m ∷ n ∷ []) ≡ true))

abbrev pub is_lone_user : List HistoryMessage → Bool
is_lone_user (m ∷ []) = is_user m.role
is_lone_user _ = false

abbrev pub opens_with_answer : List TurnUnit → Bool
opens_with_answer [] = false
opens_with_answer (u ∷ us) = elim u.messages [ [] ↦ false | m ∷ ms ↦ is_assistant m.role ]

-- No unit that is a lone user message stands before a unit that opens with an answer.
abbrev pub Separated : List TurnUnit → Type 0
Separated [] = Unit
Separated (u ∷ us) = (is_lone_user u.messages ≡ true → opens_with_answer us ≡ false) × Separated us

opens-group_turns :
    (n : HistoryMessage) (ms : List HistoryMessage)
    → opens_with_answer (group_turns (n ∷ ms)) ≡ is_assistant n.role
unfolding group_turns
opens-group_turns n [] = refl
opens-group_turns n (p ∷ ms) = ground arith

-- The units of a history, one after another, are the history; each of them is a single message or
-- a user message followed by an assistant message; and no user message that an assistant message
-- follows is left alone.
pub group_turns_total :
    (ms : List HistoryMessage)
    → (flat_map messages_of (group_turns ms) ≡ ms)
      × All IsUnit (group_turns ms)
      × Separated (group_turns ms)
unfolding group_turns
group_turns_total [] = (refl, tt, tt)
group_turns_total (m ∷ []) = (refl, (inl (m, refl), tt), (λ _. refl, tt))
group_turns_total (m ∷ n ∷ ms) = elim (Bool-cases (is_user m.role && is_assistant n.role)) [
  | inl turn ↦
      let (same, units, apart) = group_turns_total ms in
      rw turn (ap (λ r. m ∷ n ∷ r) same, (inr (m, n, refl, turn), units), (λ h. cc, apart))
  | inr other ↦
      let (same, units, apart) = group_turns_total (n ∷ ms) in
      rw other (
        ap (λ r. m ∷ r) same,
        (inl (m, refl), units),
        (λ h. ground (arith, opens-group_turns n ms), apart),
      )
]
