-- ===== src/Turns/Uncovered.antt =====
-- A bound that no unit covers and that lies behind every unit.
use llm_chat_platform.Base.{
  ℕ, suc, ◌+◌, ◌<◌, ◌≡◌, ◌≢◌, refl, sym, ap, ◌∙◌, inl, inr, List, [], ◌∷◌, none, length, drop,
  flat_map, All, arith, ok, err, index_error,
}
use mathlib.Core.Path.{subst}
use llm_chat_platform.History.{HistoryMessage}
use llm_chat_platform.Turns.{
  TurnUnit, messages_of, index_covering, index_after, index_of_unit_covering, group_turns,
  snap_window, window_from, build_materialized_window,
}
use llm_chat_platform.Turns.Grouping.{IsUnit, group_turns_total}

abbrev pub IsBelow : ℕ → HistoryMessage → Type 0
IsBelow s m = m.sequence < s

index_covering-eq-none :
    (s : ℕ) (us : List TurnUnit) (i : ℕ)
    → All IsUnit us
    → All (IsBelow s) (flat_map messages_of us)
    → index_covering s us i ≡ none
unfolding index_covering
index_covering-eq-none s [] i units h = refl
index_covering-eq-none s (u ∷ us) i (inl (m, e), units) h =
    let (low, rest) = subst (λ v. All (IsBelow s) (flat_map messages_of (v ∷ us))) e h in
    rw e (ground (arith, low, index_covering-eq-none s us (suc i) units rest))
index_covering-eq-none s (u ∷ us) i (inr (m, n, e, turn), units) h =
    let h' = subst (λ v. All (IsBelow s) (flat_map messages_of (v ∷ us))) e h in
    rw e (ground (arith, h'.0, h'.1.0, index_covering-eq-none s us (suc i) units h'.1.1))

index_after-eq :
    (s : ℕ) (us : List TurnUnit) (i : ℕ)
    → All IsUnit us
    → All (IsBelow s) (flat_map messages_of us)
    → index_after s us i ≡ ok (i + length us)
unfolding index_after
index_after-eq s [] i units h = ap ok (omega arith)
index_after-eq s (u ∷ us) i (inl (m, e), units) h =
    let (low, rest) = subst (λ v. All (IsBelow s) (flat_map messages_of (v ∷ us))) e h in
    rw e (ground (arith, low, index_after-eq s us (suc i) units rest))
index_after-eq s (u ∷ us) i (inr (m, n, e, turn), units) h =
    let h' = subst (λ v. All (IsBelow s) (flat_map messages_of (v ∷ us))) e h in
    rw e (ground (arith, h'.0, h'.1.0, index_after-eq s us (suc i) units h'.1.1))

drop-length {ℓ} : {A : Type ℓ} (xs : List A) → drop (length xs) xs ≡ []
drop-length [] = refl
drop-length (x ∷ xs) = drop-length xs

snap_window-eq-err :
    (us : List TurnUnit) (s : ℕ)
    → All IsUnit us
    → All (IsBelow s) (flat_map messages_of us)
    → snap_window us s ≡ err index_error
unfolding snap_window
snap_window-eq-err us s units h =
    let at_end : index_after s us 0 ≡ ok (length us) =
      index_after-eq s us 0 units h ∙ ap ok (omega arith) in
    rw (index_covering-eq-none s us 0 units h, index_of_unit_covering, at_end, drop-length us) refl

window_from-cons-eq-err :
    (us : List TurnUnit) (b : HistoryMessage) (bs ms : List HistoryMessage)
    → flat_map messages_of us ≡ ms
    → ms ≢ []
    → snap_window us b.sequence ≡ err index_error
    → window_from us (b ∷ bs) ≡ err index_error
window_from-cons-eq-err [] b bs ms f ne e = absurd (ne (sym f))
window_from-cons-eq-err (u ∷ us) b bs ms f ne e = e

-- On a history that is not empty, a bound whose first message has a sequence above all of the
-- history's makes the window raise an IndexError: the index that stands for no unit is then
-- looked up.
pub build_materialized_window_uncovered :
    (ms bs : List HistoryMessage) (b : HistoryMessage)
    → ms ≢ []
    → All (IsBelow b.sequence) ms
    → build_materialized_window ms (b ∷ bs) ≡ err index_error
unfolding build_materialized_window
build_materialized_window_uncovered ms bs b ne h =
    let (flat, units, apart) = group_turns_total ms in
    window_from-cons-eq-err (group_turns ms) b bs ms flat ne (
      snap_window-eq-err (group_turns ms) b.sequence units
        (subst (All (IsBelow b.sequence)) (sym flat) h))
