-- ===== src/Packer/Bounds.antt =====
-- What the packed window keeps: a suffix of whole turns, as long as the budget allows, of which
-- only a single turn is cut.
use llm_chat_platform.Base.{
  ℕ, ◌+◌, ◌-◌, ◌≤◌, ◌<◌, ◌≡◌, refl, ap, ◌∙◌, ◌⊎◌, inl, inr, Bool, true, false, not, List, [], ◌∷◌,
  append-nil, ge→ltb, map, length, length-take, is_nil, leb, ltb, arith, Bool-cases, EndsWith,
  StartsWith, StartsWith_refl, StartsWith-take, ltb→ge,
}
use llm_chat_platform.Chat.{ChatMessage, window_chars, window_chars-append, role_of}
use llm_chat_platform.Packer.{
  PackedWindow, turns_of, flatten_turns, total_chars, drop_turns, truncate_message, truncate_turn,
  fit_turns, pack_recent_window,
}
use llm_chat_platform.Packer.Cut.{IsCut, truncate_turn-IsCut}
use llm_chat_platform.Packer.Dropped.{
  drop_turns-suffix, drop_turns-capped, drop_turns-longest, drop_turns-some,
}

pub flatten-turns_of : (ms : List ChatMessage) → flatten_turns (turns_of ms) ≡ ms
unfolding turns_of
flatten-turns_of [] = refl
flatten-turns_of (m ∷ []) = refl
flatten-turns_of (m ∷ n ∷ ms) = ap (λ r. m ∷ n ∷ r) (flatten-turns_of ms)

pub window_chars-flatten :
    (ts : List (List ChatMessage)) → window_chars (flatten_turns ts) ≡ total_chars ts
unfolding total_chars
window_chars-flatten [] = refl
window_chars-flatten (t ∷ ts) =
    window_chars-append t (flatten_turns ts)
    ∙ ap (λ n. window_chars t + n) (window_chars-flatten ts)

-- Message by message: the same role, and the content cut at the end or whole.
abbrev pub Trimmed : List ChatMessage → List ChatMessage → Type 0
Trimmed [] [] = Unit
Trimmed [] (y ∷ ys) = ⊥
Trimmed (x ∷ xs) [] = ⊥
Trimmed (x ∷ xs) (y ∷ ys) = (x.role ≡ y.role) × StartsWith x.content y.content × Trimmed xs ys

pub Trimmed-refl : (xs : List ChatMessage) → Trimmed xs xs
Trimmed-refl [] = tt
Trimmed-refl (x ∷ xs) = (refl, StartsWith_refl x.content, Trimmed-refl xs)

pub Trimmed-roles : (xs ys : List ChatMessage) → Trimmed xs ys → map role_of xs ≡ map role_of ys
Trimmed-roles [] [] h = refl
Trimmed-roles [] (y ∷ ys) h = absurd h
Trimmed-roles (x ∷ xs) [] h = absurd h
Trimmed-roles (x ∷ xs) (y ∷ ys) (r, c, h) = cc (Trimmed-roles xs ys h)

truncate_message-prefix :
    (m : ChatMessage) (r : ℕ)
    → ((truncate_message m r).0.role ≡ m.role)
      × StartsWith (truncate_message m r).0.content m.content
truncate_message-prefix m r = elim (Bool-cases (leb r 0)) [
  | inl spent ↦ rw spent (refl, (m.content, refl))
  | inr room ↦ elim (Bool-cases (leb (length m.content) r)) [
    | inl fits ↦ rw (room, fits) (refl, StartsWith_refl m.content)
    | inr long ↦ rw (room, long) (refl, StartsWith-take r m.content)
  ]
]

truncate_message-le :
    (m : ChatMessage) (r : ℕ)
    → length (truncate_message m r).0.content + (truncate_message m r).1 ≤ r
truncate_message-le m r = ground (arith, length-take r m.content)

truncate_turn-Trimmed : (t : List ChatMessage) (r : ℕ) → Trimmed (truncate_turn t r) t
unfolding truncate_turn
truncate_turn-Trimmed [] r = tt
truncate_turn-Trimmed (m ∷ ms) r =
    let (role, content) = truncate_message-prefix m r in
    (role, content, truncate_turn-Trimmed ms (truncate_message m r).1)

truncate_turn-le : (t : List ChatMessage) (r : ℕ) → window_chars (truncate_turn t r) ≤ r
unfolding truncate_turn
truncate_turn-le [] r = omega arith
truncate_turn-le (m ∷ ms) r =
    omega (arith, truncate_message-le m r, truncate_turn-le ms (truncate_message m r).1)

-- What is shipped of a window under a budget: `turns` are the retained turns, the longest suffix that
-- fits, or the last one alone, which is cut where it does not fit.
pub record IsPacked (budget : ℕ) (ms out : List ChatMessage) : Type 0 where
  pub turns : List (List ChatMessage)
  pub retained : EndsWith turns (turns_of ms)
  pub some_retained : 0 < length ms → 0 < length turns
  pub longest :
      (xs : List (List ChatMessage))
      → EndsWith xs (turns_of ms)
      → length turns < length xs
      → budget < total_chars xs
  pub trimmed : Trimmed out (flatten_turns turns)
  pub whole : total_chars turns ≤ budget → out ≡ flatten_turns turns
  pub alone : budget < total_chars turns → length turns ≡ 1
  pub cut : budget < total_chars turns → IsCut budget (flatten_turns turns) out
  pub bounded : window_chars out ≤ budget

fit_turns-Trimmed :
    (b : ℕ) (ts : List (List ChatMessage)) (f : Bool)
    → (total_chars ts ≤ b) ⊎ (length ts ≤ 1)
    → Trimmed (fit_turns b ts f).messages (flatten_turns ts)
unfolding fit_turns
fit_turns-Trimmed b [] f h = tt
fit_turns-Trimmed b (t ∷ []) f h = elim (Bool-cases (ltb b (total_chars (t ∷ [])))) [
  | inl over ↦ rw (over, append-nil, append-nil) (truncate_turn-Trimmed t b)
  | inr fits ↦ rw fits (Trimmed-refl (flatten_turns (t ∷ [])))
]
fit_turns-Trimmed b (t ∷ u ∷ ts) f h =
    let le : total_chars (t ∷ u ∷ ts) ≤ b = omega arith in
    rw (ge→ltb _ _ le) (Trimmed-refl (flatten_turns (t ∷ u ∷ ts)))

pub fit_turns-whole :
    (b : ℕ) (ts : List (List ChatMessage)) (f : Bool)
    → total_chars ts ≤ b
    → fit_turns b ts f ≡ record { messages = flatten_turns ts; truncated = f }
unfolding fit_turns
fit_turns-whole b [] f h = refl
fit_turns-whole b (t ∷ ts) f h = rw (ge→ltb _ _ h) refl

fit_turns-le :
    (b : ℕ) (ts : List (List ChatMessage)) (f : Bool) → window_chars (fit_turns b ts f).messages ≤ b
unfolding fit_turns
fit_turns-le b [] f = omega arith
fit_turns-le b (t ∷ ts) f = elim (Bool-cases (ltb b (total_chars (t ∷ ts)))) [
  | inl over ↦ rw (over, append-nil) (truncate_turn-le t b)
  | inr fits ↦ rw fits (omega (arith, ltb→ge _ _ fits, window_chars-flatten (t ∷ ts)))
]

fit_turns-IsCut :
    (b : ℕ) (ts : List (List ChatMessage)) (f : Bool)
    → length ts ≡ 1
    → b < total_chars ts
    → IsCut b (flatten_turns ts) (fit_turns b ts f).messages
unfolding fit_turns
fit_turns-IsCut b [] f one h = absurd (omega (arith, one))
fit_turns-IsCut b (t ∷ u ∷ ts) f one h = absurd (omega (arith, one))
fit_turns-IsCut b (t ∷ []) f one h =
    let over : ltb b (total_chars (t ∷ [])) ≡ true = ground arith in
    rw (over, append-nil, append-nil) (truncate_turn-IsCut t b (omega arith))

turns_of-some : (ms : List ChatMessage) → 0 < length ms → 0 < length (turns_of ms)
unfolding turns_of
turns_of-some [] h = h
turns_of-some (m ∷ []) h = omega arith
turns_of-some (m ∷ n ∷ ms) h = omega arith

-- Turns over the budget are one.
only_turn :
    (b : ℕ) (ts : List (List ChatMessage))
    → (total_chars ts ≤ b) ⊎ (length ts ≤ 1)
    → b < total_chars ts
    → length ts ≡ 1
unfolding total_chars
only_turn b [] h over = absurd (omega arith)
only_turn b (t ∷ ts) (inl le) over = absurd (omega (arith, le))
only_turn b (t ∷ ts) (inr one) over = omega (arith, one)

pub packed_when_room :
    (ms : List ChatMessage) (cap reserved : ℕ)
    → reserved < cap
    → pack_recent_window ms cap reserved
      ≡ fit_turns
          (cap - reserved)
          (drop_turns (cap - reserved) (turns_of ms) false).0
          (drop_turns (cap - reserved) (turns_of ms) false).1
unfolding pack_recent_window
packed_when_room ms cap reserved h = ground arith

pub packed_when_full :
    (ms : List ChatMessage) (cap reserved : ℕ)
    → cap ≤ reserved
    → pack_recent_window ms cap reserved ≡ record { messages = []; truncated = not (is_nil ms) }
unfolding pack_recent_window
packed_when_full ms cap reserved h = ground arith

-- With room in the budget, what is shipped is the longest suffix of whole turns that fits it, as it
-- is; or, where the last turn alone does not fit, that turn, of which one message is cut at its end
-- and those behind it are emptied, so that the budget is just used up. Of a window that is not empty
-- at least one turn is shipped, roles stay, and the budget is kept.
pub pack_recent_window-IsPacked :
    (ms : List ChatMessage) (cap reserved : ℕ)
    → reserved < cap
    → IsPacked (cap - reserved) ms (pack_recent_window ms cap reserved).messages
pack_recent_window-IsPacked ms cap reserved h =
    let b = cap - reserved in
    let ts = turns_of ms in
    let kept = (drop_turns b ts false).0 in
    let flag = (drop_turns b ts false).1 in
    let capped = drop_turns-capped b ts false in
    rw (packed_when_room ms cap reserved h) (record {
      turns = kept;
      retained = drop_turns-suffix b ts false;
      longest = λ xs. drop_turns-longest b ts xs false;
      trimmed = fit_turns-Trimmed b kept flag capped;
      some_retained = λ h. drop_turns-some b ts false (turns_of-some ms h);
      whole = λ fits. ap (λ (p : PackedWindow). p.messages) (fit_turns-whole b kept flag fits);
      alone = only_turn b kept capped;
      cut = λ over. fit_turns-IsCut b kept flag (only_turn b kept capped over) over;
      bounded = fit_turns-le b kept flag;
    })
