-- ===== src/Chat.antt =====
-- The provider-neutral chat values: app/core/domain/types.py, and the alternation of roles that
-- a conversation window has.
use llm_chat_platform.Base.{
  ℕ, ◌+◌, ◌≡◌, Bool, true, false, List, [], ◌∷◌, ◌++◌, Text, codes, length, arith,
}

pub data Role : Type 0 where
  system user assistant : Role

abbrev pub is_user : Role → Bool
is_user user = true
is_user _ = false

abbrev pub is_assistant : Role → Bool
is_assistant assistant = true
is_assistant _ = false

-- A role is a literal of Python.
abbrev pub role_text : Role → Text
role_text system = codes "system"
role_text user = codes "user"
role_text assistant = codes "assistant"

pub record ChatMessage : Type 0 where
  pub role : Role
  pub content : Text

-- `sum(len(message.content) for message in messages)`
abbrev pub window_chars : List ChatMessage → ℕ
window_chars [] = 0
window_chars (m ∷ ms) = length m.content + window_chars ms

-- A user message, its answer, and so on: what a provider accepts as prior turns.
abbrev pub Alternates : List Role → Type 0
Alternates [] = Unit
Alternates (r ∷ []) = ⊥
Alternates (r ∷ s ∷ rest) = (r ≡ user) × (s ≡ assistant) × Alternates rest

abbrev pub role_of : ChatMessage → Role
role_of m = m.role

pub window_chars-append :
    (xs ys : List ChatMessage) → window_chars (xs ++ ys) ≡ window_chars xs + window_chars ys
window_chars-append [] ys = omega arith
window_chars-append (x ∷ xs) ys = omega (arith, window_chars-append xs ys)
