-- ===== src/Routing/Signals.antt =====
-- The signals of a request: app/services/routing_signals.py.
use llm_chat_platform.Base.{
  ◌≡◌, refl, ap, some, none, Option, ℕ, ◌+◌, ◌*◌, ◌≤◌, ◌<◌, Bool, true, false, Bool-cases, ◌⊎◌, inl,
  inr, List, [], ◌∷◌, ◌++◌, Text, length, is_nil, strip, All, arith,
}
use llm_chat_platform.Chat.{ChatMessage, is_user}
use llm_chat_platform.Routing.{last_user, last_content, last_user_message, estimate_tokens}

-- The estimate is a quarter of the stripped text's length, rounded up, for any text.
estimate_tokens-bounds :
    (is_space : ℕ → Bool) (t : Text)
    → (length (strip is_space t) ≤ 4 * estimate_tokens is_space t)
      × (4 * estimate_tokens is_space t < length (strip is_space t) + 4)
unfolding estimate_tokens
estimate_tokens-bounds is_space t = elim (Bool-cases (is_nil (strip is_space t))) [
  | inl blank ↦ ground (arith, blank)
  | inr given ↦ ground (arith, given)
]

abbrev IsNotUser : ChatMessage → Type 0
IsNotUser m = is_user m.role ≡ false

-- The text that the signals read.
data IsLastUser (messages : List ChatMessage) (t : Text) : Type 0 where
  found :
      (pre : List ChatMessage) (m : ChatMessage) (post : List ChatMessage)
      → messages ≡ pre ++ m ∷ post
      → is_user m.role ≡ true
      → All (λ x. is_user x.role ≡ false) post
      → t ≡ m.content
      → IsLastUser messages t
  no_user :
      All (λ x. is_user x.role ≡ false) messages → t ≡ last_content messages → IsLastUser messages t

-- `last_user` finds the last user message.
last_user-cases :
    (ms : List ChatMessage)
    → ((pre : List ChatMessage) × (m : ChatMessage) × (post : List ChatMessage) × (ms
          ≡ pre ++ m ∷ post)
        × (is_user m.role ≡ true)
        × All IsNotUser post
        × (last_user ms ≡ some m.content))
      ⊎ (All IsNotUser ms × (last_user ms ≡ none))
last_user-cases [] = inr (tt, refl)
last_user-cases (m ∷ ms) = elim (last_user-cases ms) [
  | inl (pre, u, post, eq, asks, others, at) ↦
      inl (m ∷ pre, u, post, ap (λ t. m ∷ t) eq, asks, others, rw at refl)
  | inr (others, absent) ↦ elim (Bool-cases (is_user m.role)) [
    | inl asks ↦ inl ([], m, ms, refl, asks, others, rw (absent, asks) refl)
    | inr other ↦ inr ((other, others), rw (absent, other) refl)
  ]
]

abbrev chosen : List ChatMessage → Option Text → Text
chosen messages o = elim o [ some t ↦ t | none ↦ last_content messages ]

-- The signals read the last user message, and the last message where there is no user message (the
-- empty text where there is none at all).
last_user_message-IsLastUser :
    (messages : List ChatMessage) → IsLastUser messages (last_user_message messages)
unfolding last_user_message
last_user_message-IsLastUser messages = elim (last_user-cases messages) [
  | inl (pre, m, post, eq, asks, others, at) ↦
      found pre m post eq asks others (ap (chosen messages) at)
  | inr (others, absent) ↦ no_user others (ap (chosen messages) absent)
]
