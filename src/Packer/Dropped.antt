-- ===== src/Packer/Dropped.antt =====
-- The turns that the loop over a budget leaves.
use llm_chat_platform.Base.{
  ℕ, ◌≤◌, ◌<◌, ◌≡◌, refl, ap, ◌⊎◌, inl, inr, Bool, true, List, [], ◌∷◌, length, ltb, arith,
  Bool-cases, EndsWith, EndsWith-refl, EndsWith-cons, EndsWith-split, length-suffix-le, ltb→lt,
  ltb→ge,
}
use llm_chat_platform.Chat.{ChatMessage}
use llm_chat_platform.Packer.{total_chars, drop_turns}

-- What the loop of step 2 leaves: all turns, if they fit or one is left, or fewer of them.
pub drop_turns-cases :
    (b : ℕ) (ts : List (List ChatMessage)) (f : Bool)
    → ((drop_turns b ts f ≡ (ts, f)) × ((total_chars ts ≤ b) ⊎ (length ts ≤ 1)))
      ⊎ (((drop_turns b ts f).1 ≡ true) × (b < total_chars ts))
unfolding drop_turns
drop_turns-cases b [] f = inl (refl, inr (omega arith))
drop_turns-cases b (t ∷ []) f = inl (refl, inr (omega arith))
drop_turns-cases b (t ∷ u ∷ ts) f = elim (Bool-cases (ltb b (total_chars (t ∷ u ∷ ts)))) [
  | inl over ↦ inr (
    rw over (elim (drop_turns-cases b (u ∷ ts) true) [
      | inl (same, _) ↦ ap (λ p. p.1) same
      | inr (flag, _) ↦ flag
    ]),
    ltb→lt _ _ over,
  )
  | inr fits ↦ inl (rw fits refl, inl (ltb→ge _ _ fits))
]

pub drop_turns-suffix :
    (b : ℕ) (ts : List (List ChatMessage)) (f : Bool) → EndsWith (drop_turns b ts f).0 ts
unfolding drop_turns
drop_turns-suffix b [] f = EndsWith-refl []
drop_turns-suffix b (t ∷ []) f = EndsWith-refl (t ∷ [])
drop_turns-suffix b (t ∷ u ∷ ts) f = elim (Bool-cases (ltb b (total_chars (t ∷ u ∷ ts)))) [
  | inl over ↦ rw over (EndsWith-cons t _ _ (drop_turns-suffix b (u ∷ ts) true))
  | inr fits ↦ rw fits (EndsWith-refl (t ∷ u ∷ ts))
]

pub drop_turns-capped :
    (b : ℕ) (ts : List (List ChatMessage)) (f : Bool)
    → (total_chars (drop_turns b ts f).0 ≤ b) ⊎ (length (drop_turns b ts f).0 ≤ 1)
unfolding drop_turns
drop_turns-capped b [] f = inr (omega arith)
drop_turns-capped b (t ∷ []) f = inr (omega arith)
drop_turns-capped b (t ∷ u ∷ ts) f = elim (Bool-cases (ltb b (total_chars (t ∷ u ∷ ts)))) [
  | inl over ↦ rw over (drop_turns-capped b (u ∷ ts) true)
  | inr fits ↦ rw fits (inl (ltb→ge _ _ fits))
]

pub drop_turns-longest :
    (b : ℕ) (ts xs : List (List ChatMessage)) (f : Bool)
    → EndsWith xs ts
    → length (drop_turns b ts f).0 < length xs
    → b < total_chars xs
unfolding drop_turns
drop_turns-longest b [] xs f s h = absurd (omega (arith, length-suffix-le [] xs s))
drop_turns-longest b (t ∷ []) xs f s h = absurd (omega (arith, length-suffix-le (t ∷ []) xs s))
drop_turns-longest b (t ∷ u ∷ ts) xs f s h = elim (Bool-cases (ltb b (total_chars (t ∷ u ∷ ts)))) [
  | inl over ↦ elim (EndsWith-split t (u ∷ ts) xs s) [
    | inl whole ↦ rw whole (ltb→lt _ _ over)
    | inr rest ↦ drop_turns-longest b (u ∷ ts) xs true rest (ground (arith, over))
  ]
  | inr fits ↦ absurd (ground (arith, fits, length-suffix-le (t ∷ u ∷ ts) xs s))
]

pub drop_turns-some :
    (b : ℕ) (ts : List (List ChatMessage)) (f : Bool)
    → 0 < length ts
    → 0 < length (drop_turns b ts f).0
unfolding drop_turns
drop_turns-some b [] f h = h
drop_turns-some b (t ∷ []) f h = h
drop_turns-some b (t ∷ u ∷ ts) f h = elim (Bool-cases (ltb b (total_chars (t ∷ u ∷ ts)))) [
  | inl over ↦ rw over (drop_turns-some b (u ∷ ts) true (omega arith))
  | inr fits ↦ rw fits h
]
