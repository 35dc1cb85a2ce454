-- ===== src/Turns/Partition.antt =====
-- The window and the retrieval corpus share out the grouped units, and the window alternates.
use mathlib.Core.Path.{subst}
use mathlib.Core.List.{Perm, perm_middle, perm_append_comm}
use mathlib.Core.List.Perm
use llm_chat_platform.Base.{
  ℕ, ◌≡◌, refl, inl, inr, ltb, sym, Bool, true, not, List, [], ◌∷◌, ◌++◌, map, drop, take,
  take-append-drop, flat_map, select, arith, Bool-cases, if◌then◌else◌, ok, >>=-eq-ok, append_assoc,
  map-append,
}
use llm_chat_platform.Chat.{Role, is_user, is_assistant, user, assistant, system, Alternates}
use llm_chat_platform.History.{HistoryMessage}
use llm_chat_platform.Turns.{
  TurnUnit, messages_of, is_turn, is_well_formed, first_sequence, group_turns,
  index_of_unit_covering, head_unit, snap_window, partition_at, no_window, WindowPartition,
  window_from, build_materialized_window,
}

select-perm {ℓ} :
    {A : Type ℓ} (p : A → Bool) (xs : List A) → Perm (select p xs ++ select (λ x. not (p x)) xs) xs
select-perm p [] = Perm.refl []
select-perm p (x ∷ xs) = elim (Bool-cases (p x)) [
  | inl h ↦ rw h (Perm.cons x (select-perm p xs))
  | inr h ↦ rw h (Perm.trans (perm_middle (select p xs) _) (Perm.cons x (select-perm p xs)))
]

shared_perm {ℓ} :
    {A : Type ℓ} (p : A → Bool) (before span : List A)
    → Perm (select p span ++ (before ++ select (λ x. not (p x)) span)) (before ++ span)
shared_perm p before span = Perm.trans (perm_append_comm (select p span) _) (
    rw append_assoc (
      Perm.append_left before
        (Perm.trans (perm_append_comm _ (select p span)) (select-perm p span))))

abbrev pub role_of_history : HistoryMessage → Role
role_of_history m = m.role

user_of : (r : Role) → is_user r ≡ true → r ≡ user
user_of user h = refl
user_of system h = cc
user_of assistant h = cc

assistant_of : (r : Role) → is_assistant r ≡ true → r ≡ assistant
assistant_of assistant h = refl
assistant_of system h = cc
assistant_of user h = cc

Alternates-turn :
    (ms : List HistoryMessage) (rs : List Role)
    → is_turn ms ≡ true
    → Alternates rs
    → Alternates (map role_of_history ms ++ rs)
Alternates-turn (m ∷ n ∷ []) rs t h =
    (user_of m.role (ground arith), assistant_of n.role (ground arith), h)
Alternates-turn [] rs t h = cc
Alternates-turn (m ∷ []) rs t h = cc
Alternates-turn (m ∷ n ∷ o ∷ ms) rs t h = cc

Alternates-select :
    (us : List TurnUnit)
    → Alternates (map role_of_history (flat_map messages_of (select is_well_formed us)))
Alternates-select [] = tt
Alternates-select (u ∷ us) = elim (Bool-cases (is_well_formed u)) [
  | inl turn ↦ rw turn (
      subst Alternates (sym (map-append role_of_history u.messages _))
        (Alternates-turn u.messages _ turn (Alternates-select us)))
  | inr other ↦ rw other (Alternates-select us)
]

-- What every partition has, whatever the bound was.
pub record IsPartition (us : List TurnUnit) (p : WindowPartition) : Type 0 where
  pub grouped : p.grouped ≡ us
  pub shared : Perm (p.window_units ++ p.excluded_units) us
  pub window : p.window ≡ flat_map messages_of p.window_units
  pub alternates : Alternates (map role_of_history p.window)

partition_at-IsPartition : (us : List TurnUnit) (i n : ℕ) → IsPartition us (partition_at us i n)
partition_at-IsPartition us i n = record {
  grouped = refl;
  shared =
      subst
        (Perm (
          select is_well_formed (drop i us)
          ++ (take i us ++ select (λ u. not (is_well_formed u)) (drop i us))))
        (take-append-drop i us) (shared_perm is_well_formed (take i us) (drop i us));
  window = refl;
  alternates = Alternates-select (drop i us);
}

no_window-IsPartition : (us : List TurnUnit) → IsPartition us (no_window us)
no_window-IsPartition us = record {
  grouped = refl;
  shared = Perm.refl us;
  window = refl;
  alternates = tt;
}

ok-injective : {A : Type 0} {a b : A} → ok a ≡ ok b → a ≡ b
ok-injective h = cc

snap_window-IsPartition :
    (us : List TurnUnit) (s : ℕ) (p : WindowPartition) → snap_window us s ≡ ok p → IsPartition us p
unfolding snap_window
snap_window-IsPartition us s p built =
    let (i, found, e₁) = >>=-eq-ok (index_of_unit_covering us s) _ built in
    let (u, opened, e₂) = >>=-eq-ok (head_unit (drop i us)) _ e₁ in
    let (f, first, e₃) = >>=-eq-ok (first_sequence u) _ e₂ in
    subst (IsPartition us) (ok-injective e₃)
      (partition_at-IsPartition us i (if ltb f s then 1 else 0))

window_from-IsPartition :
    (us : List TurnUnit) (bounded : List HistoryMessage) (p : WindowPartition)
    → window_from us bounded ≡ ok p
    → IsPartition us p
window_from-IsPartition [] bs p e =
    subst (IsPartition []) (ok-injective e) (no_window-IsPartition [])
window_from-IsPartition (u ∷ us) [] p e =
    subst (IsPartition (u ∷ us)) (ok-injective e) (no_window-IsPartition (u ∷ us))
window_from-IsPartition (u ∷ us) (b ∷ bs) p e = snap_window-IsPartition (u ∷ us) b.sequence p e

-- Whatever the two message sequences are, a window that is built and its complement share out the
-- grouped units exactly, the window is the messages of its units, and its roles alternate from a
-- user message to an assistant message.
pub build_materialized_window-IsPartition :
    (all_messages bounded : List HistoryMessage) (p : WindowPartition)
    → build_materialized_window all_messages bounded ≡ ok p
    → IsPartition (group_turns all_messages) p
unfolding build_materialized_window
build_materialized_window-IsPartition ms bs p e = window_from-IsPartition (group_turns ms) bs p e
