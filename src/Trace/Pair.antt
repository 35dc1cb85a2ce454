-- ===== src/Trace/Pair.antt =====
-- The pair that a trace reconstructs: `_reconstruct_pair` of app/services/trace.py.
use llm_chat_platform.Base.{
  ◌≡◌, refl, ap, ℕ, Bool, true, false, Bool-cases, ◌⊎◌, inl, inr, Option, none, some, List, [], ◌∷◌,
  ◌++◌, ◌==◌, Result, ok, err, unbound_local, All, arith,
}
use llm_chat_platform.Chat.{user, assistant, system}
use llm_chat_platform.Trace.{
  Message, Reconstruction, is_str_user, is_normal_user, is_normal_assistant, find_by_id, walk_back,
  last_assistant, reversed, pair_with, reconstruct_pair,
}

-- The nearest message before that passes the test, in a list that runs backward.
pub data IsNearest (test : Message → Bool) (before : List Message) : Option Message → Type 0 where
  nearest :
      (later : List Message) (m : Message) (earlier : List Message)
      → before ≡ later ++ m ∷ earlier
      → All (λ x. test x ≡ false) later
      → test m ≡ true
      → IsNearest test before (some m)
  nowhere : All (λ x. test x ≡ false) before → IsNearest test before none

IsNearest-cons :
    (test : Message → Bool) (m : Message) (ms : List Message) (o : Option Message)
    → test m ≡ false
    → IsNearest test ms o
    → IsNearest test (m ∷ ms) o
IsNearest-cons test m ms (some _) fails (nearest later u earlier eq others passes) =
    nearest (m ∷ later) u earlier (ap (λ t. m ∷ t) eq) (fails, others) passes
IsNearest-cons test m ms none fails (nowhere others) = nowhere (fails, others)

walk_back-IsNearest :
    (test : Message → Bool) (before : List Message) → IsNearest test before (walk_back test before)
unfolding walk_back
walk_back-IsNearest test [] = nowhere tt
walk_back-IsNearest test (m ∷ ms) = elim (Bool-cases (test m)) [
  | inl passes ↦ rw passes (nearest [] m ms refl tt passes)
  | inr fails ↦ rw fails (IsNearest-cons test m ms _ fails (walk_back-IsNearest test ms))
]

-- The output message, if an id names it.
pub data IsPaired (messages : List Message) (i : ℕ) : Result Reconstruction → Type 0 where
  paired :
      (pre : List Message) (m : Message) (post : List Message)
      → messages ≡ pre ++ m ∷ post
      → m.id ≡ i
      → All (λ x. (x.id == i) ≡ false) pre
      → (input : Option Message) → IsNearest is_normal_user (reversed pre []) input
      → IsPaired messages i (ok (record { input_message = input; output_message = some m }))
  unbound : All (λ x. (x.id == i) ≡ false) messages → IsPaired messages i (err unbound_local)

find_by_id-cases :
    (i : ℕ) (before ms : List Message)
    → ((pre : List Message) × (m : Message) × (post : List Message) × (ms ≡ pre ++ m ∷ post)
        × (m.id ≡ i)
        × All (λ x. (x.id == i) ≡ false) pre
        × (find_by_id i before ms ≡ some (m, reversed pre before)))
      ⊎ (All (λ x. (x.id == i) ≡ false) ms × (find_by_id i before ms ≡ none))
unfolding find_by_id reversed
find_by_id-cases i before [] = inr (tt, refl)
find_by_id-cases i before (m ∷ ms) = elim (Bool-cases (m.id == i)) [
  | inl same ↦ inl ([], m, ms, refl, ground (arith, same), tt, rw same refl)
  | inr other ↦ elim (find_by_id-cases i (m ∷ before) ms) [
    | inl (pre, u, post, eq, id_eq, others, at) ↦
        inl (m ∷ pre, u, post, ap (λ t. m ∷ t) eq, id_eq, (other, others), rw other at)
    | inr (others, absent) ↦ inr ((other, others), rw other absent)
  ]
]

-- With an output id, the output is the first message with that id and the input is the last user
-- message before it, if there is one; when no message has the id, the code reads a variable that it
-- has not bound, and fails.
pub reconstruct_pair-IsPaired :
    (messages : List Message) (i : ℕ) → IsPaired messages i (reconstruct_pair messages (some i))
unfolding reconstruct_pair
reconstruct_pair-IsPaired messages i = elim (find_by_id-cases i [] messages) [
  | inl (pre, m, post, eq, id_eq, others, at) ↦
      rw at
        (paired pre m post eq id_eq others _ (walk_back-IsNearest is_normal_user (reversed pre [])))
  | inr (others, absent) ↦ rw absent (unbound others)
]

is_str_user-eq-false : (m : Message) → is_str_user m ≡ false
is_str_user-eq-false m = elim m.role [ system ↦ refl | user ↦ refl | assistant ↦ refl ]

walk_back-eq-none :
    (test : Message → Bool)
    → ((m : Message) → test m ≡ false)
    → (before : List Message) → walk_back test before ≡ none
unfolding walk_back
walk_back-eq-none test fails [] = refl
walk_back-eq-none test fails (m ∷ ms) = rw (fails m) (walk_back-eq-none test fails ms)

-- The pair of a trace without an output id.
pub record IsUnpaired (messages : List Message) (r : Reconstruction) : Type 0 where
  pub output : IsNearest is_normal_assistant (reversed messages []) r.output_message
  pub no_input : r.input_message ≡ none

pair_with-IsUnpaired :
    (ms : List Message)
    → (let r = pair_with is_str_user (last_assistant ms) in
        IsNearest is_normal_assistant ms r.output_message × (r.input_message ≡ none))
unfolding last_assistant
pair_with-IsUnpaired [] = (nowhere tt, refl)
pair_with-IsUnpaired (m ∷ ms) = elim (Bool-cases (is_normal_assistant m)) [
  | inl passes ↦
      rw passes
        (nearest [] m ms refl tt passes, walk_back-eq-none is_str_user is_str_user-eq-false ms)
  | inr fails ↦
      let (output, no_input) = pair_with-IsUnpaired ms in
      rw fails (IsNearest-cons is_normal_assistant m ms _ fails output, no_input)
]

-- Without an output id, the output is the last assistant message, and the input is always missing:
-- the fallback compares `str` of the role, which has the class's name in it, with "user".
pub reconstruct_pair-IsUnpaired :
    (messages : List Message)
    → (r : Reconstruction) × (reconstruct_pair messages none ≡ ok r) × IsUnpaired messages r
unfolding reconstruct_pair
reconstruct_pair-IsUnpaired messages =
    let (output, no_input) = pair_with-IsUnpaired (reversed messages []) in
    (
      pair_with is_str_user (last_assistant (reversed messages [])),
      refl,
      record { output = output; no_input = no_input },
    )
