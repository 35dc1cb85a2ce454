-- ===== src/Packer/Cut.antt =====
-- The one turn that is cut to its budget.
use mathlib.Core.Path.{subst}
use llm_chat_platform.Base.{
  ℕ, ◌-◌, ◌≤◌, ◌<◌, ◌≡◌, refl, ap, inl, inr, List, [], ◌∷◌, sym, ◌++◌, take, Text, map, length,
  length-take, leb, arith, Bool-cases, StartsWith, StartsWith-take,
}
use llm_chat_platform.Chat.{ChatMessage, window_chars}
use llm_chat_platform.Packer.{truncate_turn}

-- A message that keeps its role alone.
abbrev pub emptied : ChatMessage → ChatMessage
emptied m = record m { content = [] }

-- A turn cut to the budget: its messages up to one are whole, that one is cut at its end, those
-- behind it are empty, and the budget is used up.
pub record IsCut (budget : ℕ) (ms out : List ChatMessage) : Type 0 where
  pub before : List ChatMessage
  pub message : ChatMessage
  pub behind : List ChatMessage
  pub content : Text
  pub parts : ms ≡ before ++ message ∷ behind
  pub start : StartsWith content message.content
  pub cut : out ≡ before ++ (record message { content = content } ∷ map emptied behind)
  pub used : window_chars out ≡ budget

truncate_turn-spent : (ms : List ChatMessage) → truncate_turn ms 0 ≡ map emptied ms
unfolding truncate_turn
truncate_turn-spent [] = refl
truncate_turn-spent (m ∷ ms) = ap (λ t. emptied m ∷ t) (truncate_turn-spent ms)

window_chars-emptied : (ms : List ChatMessage) → window_chars (map emptied ms) ≡ 0
window_chars-emptied [] = refl
window_chars-emptied (m ∷ ms) = omega (arith, window_chars-emptied ms)

-- The message that is cut comes first.
IsCut-first :
    (m : ChatMessage) (ms : List ChatMessage) (r : ℕ)
    → r ≤ length m.content
    → IsCut r (m ∷ ms) (record m { content = take r m.content } ∷ truncate_turn ms 0)
IsCut-first m ms r le = record {
  before = [];
  message = m;
  behind = ms;
  content = take r m.content;
  parts = refl;
  start = StartsWith-take r m.content;
  cut = ap (λ t. record m { content = take r m.content } ∷ t) (truncate_turn-spent ms);
  used =
      rw (truncate_turn-spent ms) (omega (arith, length-take r m.content, window_chars-emptied ms));
}

IsCut-cons :
    (m : ChatMessage) (r : ℕ) (ms out : List ChatMessage)
    → length m.content ≤ r
    → IsCut (r - length m.content) ms out
    → IsCut r (m ∷ ms) (m ∷ out)
IsCut-cons m r ms out le h = record {
  before = m ∷ h.before;
  message = h.message;
  behind = h.behind;
  content = h.content;
  parts = ap (λ t. m ∷ t) h.parts;
  start = h.start;
  cut = ap (λ t. m ∷ t) h.cut;
  used = omega (arith, h.used);
}

pub truncate_turn-IsCut :
    (t : List ChatMessage) (r : ℕ) → r < window_chars t → IsCut r t (truncate_turn t r)
unfolding truncate_turn
truncate_turn-IsCut [] r h = absurd (omega arith)
truncate_turn-IsCut (m ∷ ms) r h = elim (Bool-cases (leb r 0)) [
  | inl spent ↦
      let e : r ≡ 0 = ground (arith, spent) in
      subst (λ n. IsCut n (m ∷ ms) (truncate_turn (m ∷ ms) n)) (sym e)
        (IsCut-first m ms 0 (omega arith))
  | inr room ↦ elim (Bool-cases (leb (length m.content) r)) [
    | inl fits ↦
        rw (room, fits)
          (IsCut-cons m r ms _ (ground (arith, fits))
            (truncate_turn-IsCut ms (r - length m.content) (ground (arith, fits))))
    | inr long ↦ rw (room, long) (IsCut-first m ms r (ground (arith, long)))
  ]
]
