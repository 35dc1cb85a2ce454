-- ===== src/Packer.antt =====
-- The hard cap on the recent window: app/core/domain/context_packer.py, and
-- app/core/utils/limits.py, whose `truncate` it calls. A cap is a natural number: settings.py
-- refuses one that is not positive, and 0 stands for those.
pub mod Cut
pub mod Dropped
pub mod Bounds
pub mod Flag
mod Tests
use llm_chat_platform.Base.{
  ℕ, zero, suc, ◌+◌, ◌-◌, Bool, true, false, not, List, [], ◌∷◌, ◌++◌, Text, codes, length, take,
  flat_map, is_nil, leb, ltb, ◌==◌, if◌then◌else◌,
}
use llm_chat_platform.Chat.{ChatMessage, window_chars}

-- `s if len(s) <= max_chars else s[:max_chars]`
abbrev pub truncate : Text → ℕ → Text
truncate s max_chars = if leb (length s) max_chars then s else take max_chars s

pub record PackedWindow : Type 0 where
  pub messages : List ChatMessage
  pub truncated : Bool

-- `[tuple(messages[i : i + 2]) for i in range(0, len(messages), 2)]`
unfoldable pub turns_of : List ChatMessage → List (List ChatMessage)
turns_of [] = []
turns_of (m ∷ []) = (m ∷ []) ∷ []
turns_of (m ∷ n ∷ ms) = (m ∷ n ∷ []) ∷ turns_of ms

abbrev pub flatten_turns : List (List ChatMessage) → List ChatMessage
flatten_turns = flat_map (λ turn. turn)

unfoldable pub total_chars : List (List ChatMessage) → ℕ
total_chars [] = 0
total_chars (turn ∷ turns) = window_chars turn + total_chars turns

-- The loop of step 2: the turns left, and whether one was dropped.
unfoldable pub drop_turns : ℕ → List (List ChatMessage) → Bool → List (List ChatMessage) × Bool
unfolding total_chars
drop_turns budget [] truncated = ([], truncated)
drop_turns budget (t ∷ []) truncated = (t ∷ [], truncated)
drop_turns budget (t ∷ u ∷ turns) truncated =
    let rest = drop_turns budget (u ∷ turns) true in
    if ltb budget (total_chars (t ∷ u ∷ turns)) then rest else (t ∷ u ∷ turns, truncated)

-- One round of the loop of `_truncate_turn`: the message packed, and the characters that remain.
abbrev pub truncate_message : ChatMessage → ℕ → ChatMessage × ℕ
truncate_message m remaining =
    if leb remaining 0
    then (record m { content = [] }, remaining)
    else if leb (length m.content) remaining
    then (m, remaining - length m.content)
    else (record m { content = truncate m.content remaining }, 0)

unfoldable pub truncate_turn : List ChatMessage → ℕ → List ChatMessage
truncate_turn [] remaining = []
truncate_turn (m ∷ ms) remaining =
    let (packed, left) = truncate_message m remaining in packed ∷ truncate_turn ms left

-- Step 3, on what step 2 left.
unfoldable pub fit_turns : ℕ → List (List ChatMessage) → Bool → PackedWindow
unfolding total_chars truncate_turn
fit_turns budget [] truncated = record { messages = []; truncated = truncated }
fit_turns budget (t ∷ turns) truncated =
    if ltb budget (total_chars (t ∷ turns))
    then record { messages = flatten_turns (truncate_turn t budget ∷ []); truncated = true }
    else record { messages = flatten_turns (t ∷ turns); truncated = truncated }

unfoldable pub pack_recent_window : List ChatMessage → (max_chars reserved_chars : ℕ) → PackedWindow
unfolding turns_of drop_turns fit_turns
pack_recent_window messages max_chars reserved_chars =
    if leb max_chars reserved_chars
    then record { messages = []; truncated = not (is_nil messages) }
    else let budget = max_chars - reserved_chars in
      let (turns, truncated) = drop_turns budget (turns_of messages) false in
      fit_turns budget turns truncated
