-- ===== src/History.antt =====
-- Ordered conversation history: app/core/domain/conversation_history.py. `sequence` is a
-- PostgreSQL identity column, so a natural number; the port is a parameter.
pub mod Bounds
mod Tests
use llm_chat_platform.Base.{
  ℕ, ◌+◌, ◌-◌, Bool, ◌≡◌, List, [], ◌∷◌, Text, length, drop, ltb, leb, ◌==◌, if◌then◌else◌, Result,
  ok, err, Exn, integrity, ◌>>=◌, ◌>>◌,
}
use llm_chat_platform.Chat.{Role}

pub record HistoryMessage : Type 0 where
  pub sequence : ℕ
  pub role : Role
  pub content : Text

pub record AssembledHistory : Type 0 where
  pub messages : List HistoryMessage
  pub total_available : ℕ
  pub truncated : Bool

abbrev pub history_chars : List HistoryMessage → ℕ
history_chars [] = 0
history_chars (m ∷ ms) = length m.content + history_chars ms

-- The loop over `zip(messages, messages[1:])`.
unfoldable pub require_strictly_increasing : List HistoryMessage → Result (Unit {0})
require_strictly_increasing [] = ok tt
require_strictly_increasing (m ∷ []) = ok tt
require_strictly_increasing (m ∷ n ∷ ms) =
    let rest = require_strictly_increasing (n ∷ ms) in
    if leb n.sequence m.sequence then err (integrity m.sequence n.sequence) else rest

-- `messages[-n:]`, which is the whole sequence at n = 0.
abbrev pub last_n : ℕ → List HistoryMessage → List HistoryMessage
last_n n ms = if n == 0 then ms else drop (length ms - n) ms

-- The `while` of `_apply_bounds`: the oldest message goes while more than one is left and the
-- character cap is exceeded.
unfoldable pub drop_oldest : ℕ → List HistoryMessage → List HistoryMessage
drop_oldest max_chars [] = []
drop_oldest max_chars (m ∷ []) = m ∷ []
drop_oldest max_chars (m ∷ n ∷ ms) =
    let rest = drop_oldest max_chars (n ∷ ms) in
    if ltb max_chars (history_chars (m ∷ n ∷ ms)) then rest else m ∷ n ∷ ms

-- `ConversationHistoryAssembler`, with its two bounds.
pub record Assembler : Type 0 where
  pub max_messages : ℕ
  pub max_chars : ℕ

unfoldable pub apply_bounds : Assembler → List HistoryMessage → List HistoryMessage
unfolding drop_oldest
apply_bounds a messages = drop_oldest a.max_chars (last_n a.max_messages messages)

-- The port's answer is an argument: the rows, or what `fetch_ordered` raises.
unfoldable pub assemble : Assembler → Result (List HistoryMessage) → Result AssembledHistory
unfolding require_strictly_increasing apply_bounds
assemble a fetched = do
  messages ← fetched
  require_strictly_increasing messages
  let kept = apply_bounds a messages
  ok (record {
    messages = kept;
    total_available = length messages;
    truncated = ltb (length kept) (length messages);
  })
