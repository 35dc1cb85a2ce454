-- ===== src/Packer/Flag.antt =====
-- The packed window's size, its flag, and the alternation of its roles.
use mathlib.Core.Path.{subst}
use llm_chat_platform.Base.{
  ℕ, ◌-◌, ◌≤◌, ◌<◌, ◌≡◌, refl, sym, ap, ◌∙◌, inl, inr, ◌↔◌, Bool, true, false, not, List, [], ◌∷◌,
  map, is_nil, leb, ltb, arith, Bool-cases, All, All-append_right, leb→le, leb→gt, ltb→lt, ltb→ge,
}
use llm_chat_platform.Chat.{ChatMessage, user, assistant, window_chars, Alternates, role_of}
use llm_chat_platform.Packer.{turns_of, flatten_turns, total_chars, fit_turns, pack_recent_window}
use llm_chat_platform.Packer.Dropped.{drop_turns-cases}
use llm_chat_platform.Packer.Bounds.{
  flatten-turns_of, window_chars-flatten, Trimmed-roles, packed_when_room, packed_when_full,
  pack_recent_window-IsPacked, fit_turns-whole,
}

-- Whatever the window, what is shipped of it fits what is left of the cap.
pub window_chars-pack_recent_window :
    (ms : List ChatMessage) (cap reserved : ℕ)
    → window_chars (pack_recent_window ms cap reserved).messages ≤ cap - reserved
window_chars-pack_recent_window ms cap reserved = elim (Bool-cases (leb cap reserved)) [
  | inl full ↦ rw (packed_when_full ms cap reserved (leb→le _ _ full)) (omega arith)
  | inr room ↦ (pack_recent_window-IsPacked ms cap reserved (leb→gt _ _ room)).bounded
]

total_chars-turns_of : (ms : List ChatMessage) → total_chars (turns_of ms) ≡ window_chars ms
total_chars-turns_of ms =
    sym (window_chars-flatten (turns_of ms)) ∙ ap window_chars (flatten-turns_of ms)

-- A window that fits is shipped as it is, and not flagged.
pub pack_recent_window_fits :
    (ms : List ChatMessage) (cap reserved : ℕ)
    → reserved < cap
    → window_chars ms ≤ cap - reserved
    → pack_recent_window ms cap reserved ≡ record { messages = ms; truncated = false }
pack_recent_window_fits ms cap reserved h fits =
    let b = cap - reserved in
    let le : total_chars (turns_of ms) ≤ b = omega (arith, total_chars-turns_of ms) in
    elim (drop_turns-cases b (turns_of ms) false) [
      | inl (same, _) ↦
          packed_when_room ms cap reserved h
          ∙ ap (λ (p : List (List ChatMessage) × Bool). fit_turns b p.0 p.1) same
          ∙ fit_turns-whole b (turns_of ms) false le
          ∙ ap (λ (r : List ChatMessage). record { messages = r; truncated = false })
              (flatten-turns_of ms)
      | inr (_, over) ↦ absurd (omega arith)
    ]

fit_turns-flag_over :
    (b : ℕ) (ts : List (List ChatMessage)) (f : Bool)
    → b < total_chars ts
    → (fit_turns b ts f).truncated ≡ true
unfolding fit_turns total_chars
fit_turns-flag_over b [] f h = absurd (omega arith)
fit_turns-flag_over b (t ∷ ts) f h = ground arith

fit_turns-flag_set :
    (b : ℕ) (ts : List (List ChatMessage)) (f : Bool)
    → f ≡ true
    → (fit_turns b ts f).truncated ≡ true
unfolding fit_turns
fit_turns-flag_set b [] f h = h
fit_turns-flag_set b (t ∷ ts) f h = ground arith

pack_recent_window_over :
    (ms : List ChatMessage) (cap reserved : ℕ)
    → reserved < cap
    → cap - reserved < window_chars ms
    → (pack_recent_window ms cap reserved).truncated ≡ true
pack_recent_window_over ms cap reserved h over =
    let b = cap - reserved in
    let lt : b < total_chars (turns_of ms) = omega (arith, total_chars-turns_of ms) in
    rw (packed_when_room ms cap reserved h) (elim (drop_turns-cases b (turns_of ms) false) [
      | inl (same, _) ↦ rw same (fit_turns-flag_over b (turns_of ms) false lt)
      | inr (flag, _) ↦ fit_turns-flag_set b _ _ flag
    ])

full_flag_iff :
    (ms : List ChatMessage) → (not (is_nil ms) ≡ false) ↔ (◌≡◌ {A = List ChatMessage} [] ms)
full_flag_iff [] = (λ _. refl, λ _. refl)
full_flag_iff (m ∷ ms) = (λ h. cc, λ e. cc)

-- The flag says exactly whether something was dropped or cut.
pub pack_recent_window-truncated_iff :
    (ms : List ChatMessage) (cap reserved : ℕ)
    → ((pack_recent_window ms cap reserved).truncated ≡ false)
      ↔ ((pack_recent_window ms cap reserved).messages ≡ ms)
pack_recent_window-truncated_iff ms cap reserved = elim (Bool-cases (leb cap reserved)) [
  | inl full ↦ rw (packed_when_full ms cap reserved (leb→le _ _ full)) (full_flag_iff ms)
  | inr room ↦
      let lt = leb→gt _ _ room in
      elim (Bool-cases (ltb (cap - reserved) (window_chars ms))) [
        | inl over ↦
            let flag = pack_recent_window_over ms cap reserved lt (ltb→lt _ _ over) in
            (
              λ h. cc (flag, h),
              λ e. absurd (
                  omega (
                    arith,
                    ap window_chars e,
                    ltb→lt _ _ over,
                    (pack_recent_window-IsPacked ms cap reserved lt).bounded,
                  )),
            )
        | inr fits ↦
            rw (pack_recent_window_fits ms cap reserved lt (ltb→ge _ _ fits)) (λ _. refl, λ _. refl)
      ]
]

-- Alternation, turn by turn.
abbrev IsPair : List ChatMessage → Type 0
IsPair t =
    (m : ChatMessage) × (n : ChatMessage) × (t ≡ m ∷ n ∷ [])
    × (m.role ≡ user)
    × (n.role ≡ assistant)

pairs_of_Alternates :
    (ms : List ChatMessage) → Alternates (map role_of ms) → All IsPair (turns_of ms)
unfolding turns_of
pairs_of_Alternates [] h = tt
pairs_of_Alternates (m ∷ []) h = absurd h
pairs_of_Alternates (m ∷ n ∷ ms) (u, a, h) = ((m, n, refl, u, a), pairs_of_Alternates ms h)

Alternates-of_pairs :
    (ts : List (List ChatMessage)) → All IsPair ts → Alternates (map role_of (flatten_turns ts))
Alternates-of_pairs [] h = tt
Alternates-of_pairs (t ∷ ts) ((m, n, e, u, a), h) = rw e (u, a, Alternates-of_pairs ts h)

-- Packing keeps the alternation of user and assistant messages.
pub pack_recent_window-Alternates :
    (ms : List ChatMessage) (cap reserved : ℕ)
    → Alternates (map role_of ms)
    → Alternates (map role_of (pack_recent_window ms cap reserved).messages)
pack_recent_window-Alternates ms cap reserved alt = elim (Bool-cases (leb cap reserved)) [
  | inl full ↦ rw (packed_when_full ms cap reserved (leb→le _ _ full)) tt
  | inr room ↦
      let p = pack_recent_window-IsPacked ms cap reserved (leb→gt _ _ room) in
      let (rest, split) = p.retained in
      let pairs = subst (All IsPair) split (pairs_of_Alternates ms alt) in
      subst Alternates (sym (Trimmed-roles _ _ p.trimmed))
        (Alternates-of_pairs p.turns (All-append_right IsPair rest p.turns pairs))
]
