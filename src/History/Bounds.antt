-- ===== src/History/Bounds.antt =====
-- What the assembler guarantees of a history that it returns, and when it refuses one.
use mathlib.Core.Path.{subst}
use llm_chat_platform.Base.{
  ℕ, ◌-◌, ◌≤◌, ◌<◌, ◌≡◌, ◌≢◌, refl, sym, ap, ◌⊎◌, inl, inr, false, ◌↔◌, List, [], ◌∷◌, ◌++◌, length,
  arith, ltb, ◌==◌, ok, Bool-cases, EndsWith, EndsWith-refl, EndsWith-cons, EndsWith-split,
  length-suffix-le, ge→ltb, Result-cases, EndsWith-drop, EndsWith-trans, length-drop, length-append,
  ltb→lt, ltb→ge,
}
use llm_chat_platform.History.{
  HistoryMessage, AssembledHistory, history_chars, require_strictly_increasing, last_n, drop_oldest,
  Assembler, apply_bounds, assemble,
}

-- Each sequence is below the next one.
abbrev pub StrictlyIncreasing : List HistoryMessage → Type 0
StrictlyIncreasing [] = Unit
StrictlyIncreasing (m ∷ []) = Unit
StrictlyIncreasing (m ∷ n ∷ ms) = (m.sequence < n.sequence) × StrictlyIncreasing (n ∷ ms)

pub require_strictly_increasing_iff :
    (ms : List HistoryMessage) → (require_strictly_increasing ms ≡ ok tt) ↔ StrictlyIncreasing ms
unfolding require_strictly_increasing
require_strictly_increasing_iff [] = (λ _. tt, λ _. refl)
require_strictly_increasing_iff (m ∷ []) = (λ _. tt, λ _. refl)
require_strictly_increasing_iff (m ∷ n ∷ ms) =
    let (to, from) = require_strictly_increasing_iff (n ∷ ms) in
    (λ h. (ground arith, to (ground arith)), λ h. ground (arith, from h.1))

-- A suffix of `ms` within the number of messages; 0 is no limit.
abbrev pub IsAllowed : Assembler → (ms ys : List HistoryMessage) → Type 0
IsAllowed a ms ys = EndsWith ys ms × (0 < a.max_messages → length ys ≤ a.max_messages)

-- What is kept of `ms` under the two bounds: a suffix within the number of messages, which is within
-- the characters too or is one message alone; every longer one that is allowed exceeds the
-- characters; and something is kept of a history that is not empty.
pub record IsKept (a : Assembler) (ms kept : List HistoryMessage) : Type 0 where
  pub allowed : IsAllowed a ms kept
  pub some_kept : 0 < length ms → 0 < length kept
  pub chars_capped : (length kept ≤ 1) ⊎ (history_chars kept ≤ a.max_chars)
  pub longest :
      (ys : List HistoryMessage)
      → IsAllowed a ms ys
      → length kept < length ys
      → a.max_chars < history_chars ys

history_chars_suffix :
    (xs ys : List HistoryMessage) → EndsWith ys xs → history_chars ys ≤ history_chars xs
history_chars_suffix xs ys (rest, e) = rw e (go rest)
  where
    go : (r : List HistoryMessage) → history_chars ys ≤ history_chars (r ++ ys)
    go [] = omega arith
    go (m ∷ r) = omega (arith, go r)

drop_oldest-suffix : (c : ℕ) (ms : List HistoryMessage) → EndsWith (drop_oldest c ms) ms
unfolding drop_oldest
drop_oldest-suffix c [] = EndsWith-refl []
drop_oldest-suffix c (m ∷ []) = EndsWith-refl (m ∷ [])
drop_oldest-suffix c (m ∷ n ∷ ms) = elim (Bool-cases (ltb c (history_chars (m ∷ n ∷ ms)))) [
  | inl over ↦ rw over (EndsWith-cons m _ _ (drop_oldest-suffix c (n ∷ ms)))
  | inr fits ↦ rw fits (EndsWith-refl (m ∷ n ∷ ms))
]

drop_oldest-capped :
    (c : ℕ) (ms : List HistoryMessage)
    → (length (drop_oldest c ms) ≤ 1) ⊎ (history_chars (drop_oldest c ms) ≤ c)
unfolding drop_oldest
drop_oldest-capped c [] = inl (omega arith)
drop_oldest-capped c (m ∷ []) = inl (omega arith)
drop_oldest-capped c (m ∷ n ∷ ms) = elim (Bool-cases (ltb c (history_chars (m ∷ n ∷ ms)))) [
  | inl over ↦ rw over (drop_oldest-capped c (n ∷ ms))
  | inr fits ↦ rw fits (inr (ltb→ge _ _ fits))
]

drop_oldest-longest :
    (c : ℕ) (ms ys : List HistoryMessage)
    → EndsWith ys ms
    → length (drop_oldest c ms) < length ys
    → c < history_chars ys
unfolding drop_oldest
drop_oldest-longest c [] ys s h = absurd (omega (arith, length-suffix-le [] ys s))
drop_oldest-longest c (m ∷ []) ys s h = absurd (omega (arith, length-suffix-le (m ∷ []) ys s))
drop_oldest-longest c (m ∷ n ∷ ms) ys s h = elim (Bool-cases (ltb c (history_chars (m ∷ n ∷ ms)))) [
  | inl over ↦ elim (EndsWith-split m (n ∷ ms) ys s) [
    | inl whole ↦ rw whole (ltb→lt _ _ over)
    | inr t ↦ drop_oldest-longest c (n ∷ ms) ys t (ground (arith, over))
  ]
  | inr fits ↦ absurd (ground (arith, fits, length-suffix-le (m ∷ n ∷ ms) ys s))
]

last_n-suffix : (n : ℕ) (ms : List HistoryMessage) → EndsWith (last_n n ms) ms
last_n-suffix n ms = elim (Bool-cases (n == 0)) [
  | inl all ↦ rw all (EndsWith-refl ms)
  | inr some_n ↦ rw some_n (EndsWith-drop (length ms - n) ms)
]

length-last_n : (n : ℕ) (ms : List HistoryMessage) → 0 < n → length (last_n n ms) ≤ n
length-last_n n ms h = ground (arith, length-drop (length ms - n) ms)

suffix-eq_of_length :
    (ms ys : List HistoryMessage) → EndsWith ys ms → length ms ≤ length ys → ys ≡ ms
suffix-eq_of_length ms ys ([], e) h = sym e
suffix-eq_of_length ms ys (r ∷ rest, e) h =
    absurd (omega (arith, ap length e, length-append rest ys))

-- Of two suffixes the shorter is one of the longer.
EndsWith-of_shorter :
    (ms ys zs : List HistoryMessage)
    → EndsWith ys ms
    → EndsWith zs ms
    → length ys ≤ length zs
    → EndsWith ys zs
EndsWith-of_shorter [] ys zs hy hz le =
    subst (EndsWith ys) (sym (suffix-eq_of_length [] zs hz (omega arith))) hy
EndsWith-of_shorter (m ∷ ms) ys zs hy hz le = elim (EndsWith-split m ms zs hz) [
  | inl whole ↦ subst (EndsWith ys) (sym whole) hy
  | inr tz ↦ elim (EndsWith-split m ms ys hy) [
    | inl whole ↦ absurd (omega (arith, le, ap length whole, length-suffix-le ms zs tz))
    | inr ty ↦ EndsWith-of_shorter ms ys zs ty tz le
  ]
]

-- `messages[-n:]` is the longest suffix that is allowed.
IsAllowed-last_n :
    (a : Assembler) (ms ys : List HistoryMessage)
    → IsAllowed a ms ys
    → EndsWith ys (last_n a.max_messages ms)
IsAllowed-last_n a ms ys (s, few) = elim (Bool-cases (a.max_messages == 0)) [
  | inl all ↦ rw all s
  | inr some_n ↦
      EndsWith-of_shorter ms ys (last_n a.max_messages ms) s (last_n-suffix a.max_messages ms) (
        rw some_n (
          let n = a.max_messages in
          omega (
            arith,
            few (ground (arith, some_n)),
            length-drop (length ms - n) ms,
            length-suffix-le ms ys s,
          )))
]

drop_oldest-some :
    (c : ℕ) (ms : List HistoryMessage) → 0 < length ms → 0 < length (drop_oldest c ms)
unfolding drop_oldest
drop_oldest-some c [] h = h
drop_oldest-some c (m ∷ []) h = h
drop_oldest-some c (m ∷ n ∷ ms) h = ground (arith, drop_oldest-some c (n ∷ ms) (omega arith))

last_n-some : (n : ℕ) (ms : List HistoryMessage) → 0 < length ms → 0 < length (last_n n ms)
last_n-some n ms h = ground (arith, length-drop (length ms - n) ms)

pub apply_bounds-IsKept :
    (a : Assembler) (ms : List HistoryMessage) → IsKept a ms (apply_bounds a ms)
unfolding apply_bounds
apply_bounds-IsKept a ms =
    let tail = last_n a.max_messages ms in
    let kept = drop_oldest-suffix a.max_chars tail in
    record {
      allowed = (
        EndsWith-trans _ tail ms kept (last_n-suffix a.max_messages ms),
        λ h. omega (arith, length-suffix-le tail _ kept, length-last_n a.max_messages ms h),
      );
      some_kept = λ h. drop_oldest-some a.max_chars tail (last_n-some a.max_messages ms h);
      chars_capped = drop_oldest-capped a.max_chars tail;
      longest = λ ys s. drop_oldest-longest a.max_chars tail ys (IsAllowed-last_n a ms ys s);
    }

-- What a returned history says of the rows that the port delivered.
pub record IsAssembled (a : Assembler) (ms : List HistoryMessage) (h : AssembledHistory)
    : Type 0 where
  pub ordered : StrictlyIncreasing ms
  pub kept : IsKept a ms h.messages
  pub total : h.total_available ≡ length ms
  pub dropped : (h.truncated ≡ false) ↔ (h.messages ≡ ms)

truncated_iff :
    (ms ys : List HistoryMessage)
    → EndsWith ys ms
    → (ltb (length ys) (length ms) ≡ false) ↔ (ys ≡ ms)
truncated_iff ms ys s =
    (λ h. suffix-eq_of_length ms ys s (ltb→ge _ _ h), λ e. ge→ltb _ _ (omega (arith, ap length e)))

-- `assemble` on the rows that the port delivers returns a history exactly if their sequences
-- increase strictly. That history is the longest suffix of them that the two bounds allow (of rows
-- that are not none at least one message is kept, though it exceeds the character bound), with the
-- number of rows, and flagged as truncated exactly if something was dropped.
pub assemble_iff :
    (a : Assembler) (ms : List HistoryMessage)
    → ((h : AssembledHistory) × (assemble a (ok ms) ≡ ok h) × IsAssembled a ms h)
      ⊎ (¬ (StrictlyIncreasing ms) × ((h : AssembledHistory) → assemble a (ok ms) ≢ ok h))
unfolding assemble
assemble_iff a ms = elim (Result-cases (require_strictly_increasing ms)) [
  | inl (u, e) ↦ inl (
    record {
      messages = apply_bounds a ms;
      total_available = length ms;
      truncated = ltb (length (apply_bounds a ms)) (length ms);
    },
    rw e,
    record {
      ordered = (require_strictly_increasing_iff ms).0 e;
      kept = apply_bounds-IsKept a ms;
      total = refl;
      dropped = truncated_iff ms _ (apply_bounds-IsKept a ms).allowed.0;
    },
  )
  | inr (x, e) ↦
      inr (λ inc. cc (e, (require_strictly_increasing_iff ms).1 inc), λ h p. cc (rw e at p))
]
