-- ===== src/Bm25/Selection.antt =====
-- What the selection keeps and leaves out: `pack_selected_events` of
-- app/core/domain/bm25_ranking.py.
use llm_chat_platform.Base.{
  ◌≡◌, refl, ap, ℕ, suc, ◌+◌, ◌-◌, ◌≤◌, ◌<◌, true, false, inl, inr, List, [], ◌∷◌, length, leb,
  ◌==◌, Bool-cases, arith,
}
use llm_chat_platform.Turns.{CorpusEvent}
use llm_chat_platform.Bm25.{
  excludes, size_of, total_size, pack_from, pack_selected_events, bm25_top_k,
}

-- An event that is left out was excluded, or the selection is full, or the event is larger than
-- the room that is left at the end.
pub data IsAccountedFor (max_chars : ℕ) (excluded_ids : List ℕ) (count used : ℕ)
    : List CorpusEvent → List CorpusEvent → Type 0 where
  no_more : IsAccountedFor max_chars excluded_ids count used [] []
  full :
      (es : List CorpusEvent)
      → count ≡ bm25_top_k
      → IsAccountedFor max_chars excluded_ids count used [] es
  accepted :
      (e : CorpusEvent) {kept es : List CorpusEvent}
      → excludes e.event_id excluded_ids ≡ false
      → IsAccountedFor max_chars excluded_ids count used kept es
      → IsAccountedFor max_chars excluded_ids count used (e ∷ kept) (e ∷ es)
  excluded :
      (e : CorpusEvent) {kept es : List CorpusEvent}
      → excludes e.event_id excluded_ids ≡ true
      → IsAccountedFor max_chars excluded_ids count used kept es
      → IsAccountedFor max_chars excluded_ids count used kept (e ∷ es)
  oversized :
      (e : CorpusEvent) {kept es : List CorpusEvent}
      → max_chars < used + size_of e
      → IsAccountedFor max_chars excluded_ids count used kept es
      → IsAccountedFor max_chars excluded_ids count used kept (e ∷ es)

-- The four ways the loop treats an event.
module _ (m : ℕ) (ids : List ℕ) (k u : ℕ) (e : CorpusEvent) (es : List CorpusEvent) where
  pack_from-excluded :
      excludes e.event_id ids ≡ true → pack_from m ids k u (e ∷ es) ≡ pack_from m ids k u es
  unfolding pack_from
  pack_from-excluded h = rw h refl

  module _ (new : excludes e.event_id ids ≡ false) where
    pack_from-full : (k == bm25_top_k) ≡ true → pack_from m ids k u (e ∷ es) ≡ []
    unfolding pack_from
    pack_from-full h = rw (new, h) refl

    module _ (open_to : (k == bm25_top_k) ≡ false) where
      pack_from-accepted :
          leb (size_of e) (m - u) ≡ true
          → pack_from m ids k u (e ∷ es) ≡ e ∷ pack_from m ids (suc k) (u + size_of e) es
      unfolding pack_from
      pack_from-accepted h = rw (new, open_to, h) refl

      pack_from-oversized :
          leb (size_of e) (m - u) ≡ false → pack_from m ids k u (e ∷ es) ≡ pack_from m ids k u es
      unfolding pack_from
      pack_from-oversized h = rw (new, open_to, h) refl

pack_from-nil : (m : ℕ) (ids : List ℕ) (k u : ℕ) → pack_from m ids k u [] ≡ []
unfolding pack_from
pack_from-nil m ids k u = refl

pack_from-IsAccountedFor :
    (m : ℕ) (ids : List ℕ) (k u : ℕ) (es : List CorpusEvent) (count used : ℕ)
    → k ≤ bm25_top_k
    → count ≡ k + length (pack_from m ids k u es)
    → used ≡ u + total_size (pack_from m ids k u es)
    → IsAccountedFor m ids count used (pack_from m ids k u es) es
pack_from-IsAccountedFor m ids k u [] count used hk hc hu = rw (pack_from-nil m ids k u) no_more
pack_from-IsAccountedFor m ids k u (e ∷ es) count used hk hc hu =
    elim (Bool-cases (excludes e.event_id ids)) [
      | inl out ↦
          let eq = pack_from-excluded m ids k u e es out in
          rw eq (
            excluded e out (
              pack_from-IsAccountedFor m ids k u es count used hk (omega (arith, hc, ap length eq))
                (omega (arith, hu, ap total_size eq))))
      | inr new ↦ elim (Bool-cases (k == bm25_top_k)) [
        | inl h ↦
            let eq = pack_from-full m ids k u e es new h in
            rw eq (full (e ∷ es) (ground (arith, hc, ap length eq, h)))
        | inr h ↦ elim (Bool-cases (leb (size_of e) (m - u))) [
          | inl fits ↦
              let eq = pack_from-accepted m ids k u e es new h fits in
              rw eq (
                accepted e new (
                  pack_from-IsAccountedFor m ids (suc k) (u + size_of e) es count used
                    (ground (arith, h)) (omega (arith, hc, ap length eq))
                    (omega (arith, hu, ap total_size eq))))
          | inr big ↦
              let eq = pack_from-oversized m ids k u e es new h big in
              rw eq (
                oversized e (ground (arith, hu, big, ap total_size eq)) (
                  pack_from-IsAccountedFor m ids k u es count used hk
                    (omega (arith, hc, ap length eq)) (omega (arith, hu, ap total_size eq))))
        ]
      ]
    ]

pack_from-bounds :
    (m : ℕ) (ids : List ℕ) (k u : ℕ) (es : List CorpusEvent)
    → k ≤ bm25_top_k
    → u ≤ m
    → (k + length (pack_from m ids k u es) ≤ bm25_top_k)
      × (u + total_size (pack_from m ids k u es) ≤ m)
unfolding pack_from
pack_from-bounds m ids k u [] hk hu = ground arith
pack_from-bounds m ids k u (e ∷ es) hk hu =
    ground (arith, pack_from-bounds m ids k u es, pack_from-bounds m ids (suc k) (u + size_of e) es)

-- What a selection promises of the ranked events.
pub record IsSelection (max_chars : ℕ) (excluded_ids : List ℕ) (ranked selected : List CorpusEvent)
    (used : ℕ) : Type 0 where
  pub counted : used ≡ total_size selected
  pub within_budget : used ≤ max_chars
  pub at_most : length selected ≤ bm25_top_k
  pub accounted : IsAccountedFor max_chars excluded_ids (length selected) used selected ranked

-- The selection keeps at most five events within the budget of characters, in ranked order, with
-- their exact total, and none that is excluded; an event is left out only when it is excluded, when
-- five are kept before it, or when it does not fit in what the whole selection leaves.
pub pack_selected_events-IsSelection :
    (max_chars : ℕ) (excluded_ids : List ℕ) (ranked : List CorpusEvent)
    → let (selected, used) = pack_selected_events max_chars excluded_ids ranked in
      IsSelection max_chars excluded_ids ranked selected used
unfolding pack_selected_events
pack_selected_events-IsSelection max_chars excluded_ids ranked =
    let (count, used) =
      pack_from-bounds max_chars excluded_ids 0 0 ranked (omega arith) (omega arith) in
    record {
      counted = refl;
      within_budget = omega (arith, used);
      at_most = omega (arith, count);
      accounted =
          pack_from-IsAccountedFor max_chars excluded_ids 0 0 ranked _ _ (omega arith) (omega arith)
            (omega arith);
    }
