-- ===== src/Bm25/Ranking.antt =====
-- The order and the failures of a ranking: `rank_events` of app/core/domain/bm25_ranking.py.
use mathlib.Core.Path.{subst}
use mathlib.Core.List.{Perm}
use mathlib.Core.List.Perm
use llm_chat_platform.Base.{
  ◌≡◌, ◌≢◌, ap, sym, ◌∙◌, ◌≤◌, false, &&-eq-true, true, ◌||◌, inl, inr, List, [], ◌∷◌, Text, length,
  take, ltb, Bool-cases, All, Result, ok, err, value_error, Result-cases, ◌++◌, arith,
}
use llm_chat_platform.Turns.{CorpusEvent}
use llm_chat_platform.Bm25.{
  Scores, RankedEvent, ranks_before, insert_ranked, sort_ranked, get_or, score_events,
  document_tokens, total_length, rank_events, bm25_query_token_cap,
}
use llm_chat_platform.Bm25.Scoring.{
  events_of, AreFinite, AreScored, bm25_score, score_events-eq-ok, score_events-eq-err,
  score_terms-sum,
}

module _ (s : Scores) where
  open s use {Score, zero_score, is_finite, at_least}

  insert_ranked-perm :
      (a : RankedEvent s) (bs : List (RankedEvent s))
      → Perm (events_of s (insert_ranked s a bs)) (a.event ∷ events_of s bs)
  unfolding insert_ranked
  insert_ranked-perm a [] = Perm.refl (a.event ∷ [])
  insert_ranked-perm a (b ∷ bs) = elim (Bool-cases (ranks_before s a b)) [
    | inl le ↦ rw le (Perm.refl (a.event ∷ b.event ∷ events_of s bs))
    | inr gt ↦ rw gt (
        Perm.trans (Perm.cons b.event (insert_ranked-perm a bs))
          (Perm.swap a.event b.event (events_of s bs)))
  ]

  sort_ranked-perm :
      (list : List (RankedEvent s)) → Perm (events_of s (sort_ranked s list)) (events_of s list)
  unfolding sort_ranked
  sort_ranked-perm [] = Perm.refl []
  sort_ranked-perm (a ∷ list) =
      Perm.trans (insert_ranked-perm a (sort_ranked s list))
        (Perm.cons a.event (sort_ranked-perm list))

  -- An event that stands above another: by a higher score, or at equal scores by an id that is not
  -- higher.
  pub data StandsAbove (a b : RankedEvent s) : Type 0 where
    by_score : at_least a.score b.score ≡ true → at_least b.score a.score ≡ false → StandsAbove a b
    by_id :
        at_least a.score b.score ≡ true
        → at_least b.score a.score ≡ true
        → a.event.event_id ≤ b.event.event_id
        → StandsAbove a b

  ranks_before-StandsAbove : (a b : RankedEvent s) → ranks_before s a b ≡ true → StandsAbove a b
  ranks_before-StandsAbove a b h =
      let (above, tie) = &&-eq-true {a = at_least a.score b.score} h in
      elim (Bool-cases (at_least b.score a.score)) [
        | inr lower ↦ by_score above lower
        | inl level ↦ by_id above level (ground (arith, tie, level))
      ]

  -- Each event stands above the next one.
  abbrev pub IsRanked : List (RankedEvent s) → Type 0
  IsRanked [] = Unit
  IsRanked (a ∷ []) = Unit
  IsRanked (a ∷ b ∷ bs) = StandsAbove a b × IsRanked (b ∷ bs)

  insert_ranked-All :
      (P : RankedEvent s → Type 0) (a : RankedEvent s) (bs : List (RankedEvent s))
      → P a
      → All P bs
      → All P (insert_ranked s a bs)
  unfolding insert_ranked
  insert_ranked-All P a [] ha h = (ha, tt)
  insert_ranked-All P a (b ∷ bs) ha h = elim (Bool-cases (ranks_before s a b)) [
    | inl le ↦ rw le (ha, h)
    | inr gt ↦ rw gt (h.0, insert_ranked-All P a bs ha h.1)
  ]

  sort_ranked-All :
      (P : RankedEvent s → Type 0) (list : List (RankedEvent s))
      → All P list
      → All P (sort_ranked s list)
  unfolding sort_ranked
  sort_ranked-All P [] h = tt
  sort_ranked-All P (a ∷ list) h = insert_ranked-All P a _ h.0 (sort_ranked-All P list h.1)

  module _
      (total_order : (x y : Score)
        → is_finite x ≡ true
        → is_finite y ≡ true
        → (at_least x y || at_least y x) ≡ true) where
    ranks_before-total :
        (a b : RankedEvent s)
        → is_finite a.score ≡ true
        → is_finite b.score ≡ true
        → ranks_before s a b ≡ false
        → ranks_before s b a ≡ true
    ranks_before-total a b ha hb h = ground (arith, total_order a.score b.score ha hb)

    after :
        (a b : RankedEvent s)
        → is_finite a.score ≡ true
        → is_finite b.score ≡ true
        → ranks_before s a b ≡ false
        → StandsAbove b a
    after a b ha hb gt = ranks_before-StandsAbove b a (ranks_before-total a b ha hb gt)

    -- One that stands above both stands above whichever comes first.
    behind :
        (a b c : RankedEvent s) (cs : List (RankedEvent s))
        → StandsAbove b c
        → StandsAbove b a
        → IsRanked (insert_ranked s a (c ∷ cs))
        → IsRanked (b ∷ insert_ranked s a (c ∷ cs))
    unfolding insert_ranked
    behind a b c cs over_c over_a h = elim (Bool-cases (ranks_before s a c)) [
      | inl le ↦ rw le (over_a, rw le at h)
      | inr gt ↦ rw gt (over_c, rw gt at h)
    ]

    insert_ranked-IsRanked :
        (a : RankedEvent s) (bs : List (RankedEvent s))
        → is_finite a.score ≡ true
        → AreFinite s bs
        → IsRanked bs
        → IsRanked (insert_ranked s a bs)
    unfolding insert_ranked
    insert_ranked-IsRanked a [] ha fin h = tt
    insert_ranked-IsRanked a (b ∷ []) ha fin h = elim (Bool-cases (ranks_before s a b)) [
      | inl le ↦ rw le (ranks_before-StandsAbove a b le, tt)
      | inr gt ↦ rw gt (after a b ha fin.0 gt, tt)
    ]
    insert_ranked-IsRanked a (b ∷ c ∷ cs) ha fin h = elim (Bool-cases (ranks_before s a b)) [
      | inl le ↦ rw le (ranks_before-StandsAbove a b le, h)
      | inr gt ↦ rw gt (
          behind a b c cs h.0 (after a b ha fin.0 gt)
            (insert_ranked-IsRanked a (c ∷ cs) ha fin.1 h.1))
    ]

    sort_ranked-IsRanked :
        (list : List (RankedEvent s)) → AreFinite s list → IsRanked (sort_ranked s list)
    unfolding sort_ranked
    sort_ranked-IsRanked [] h = tt
    sort_ranked-IsRanked (a ∷ list) h =
        insert_ranked-IsRanked a _ h.0 (sort_ranked-All (λ a. is_finite a.score ≡ true) list h.1)
          (sort_ranked-IsRanked list h.1)

    -- The ways in which ranking ends.
    pub data IsRankingOf (lexical_tokens : Text → List Text) (events : List CorpusEvent)
        (query : List Text) : Result (List (RankedEvent s)) → Type 0 where
      ranked :
          {r : List (RankedEvent s)}
          → Perm (events_of s r) events
          → AreFinite s r
          → (let documents = document_tokens s lexical_tokens events [] in
              AreScored s
                (length events)
                (total_length documents)
                documents
                (take bm25_query_token_cap query)
                r)
          → IsRanked r
          → IsRankingOf lexical_tokens events query (ok r)
      tokenless :
          events ≢ []
          → total_length (document_tokens s lexical_tokens events []) ≡ 0
          → IsRankingOf lexical_tokens events query (err value_error)
      overflowed :
          (e : CorpusEvent) (pre post : List CorpusEvent)
          → events ≡ pre ++ e ∷ post
          → (let documents = document_tokens s lexical_tokens events [] in
              is_finite (
                bm25_score s
                  (length events)
                  (total_length documents)
                  documents
                  (take bm25_query_token_cap query)
                  e)
              ≡ false)
          → IsRankingOf lexical_tokens events query (err value_error)

    -- When finite scores are totally ordered, ranking either gives all the events once, with finite
    -- scores, each of them the sum of the contributions of those of the first 256 query terms that
    -- occur in the event's document, and each standing above the next, by a higher score or, at equal
    -- scores, by its id; or it raises ValueError, and then no document has a token or some event's
    -- score is not finite.
    pub rank_events-IsRankingOf :
        (lexical_tokens : Text → List Text) (events : List CorpusEvent) (query : List Text)
        → IsRankingOf lexical_tokens events query (rank_events s lexical_tokens events query)
    unfolding rank_events
    rank_events-IsRankingOf lexical_tokens [] query = ranked (Perm.refl []) tt tt tt
    rank_events-IsRankingOf lexical_tokens (e ∷ es) query =
        let documents = document_tokens s lexical_tokens (e ∷ es) [] in
        let total = total_length documents in
        let scored =
          score_events s (length (e ∷ es)) total documents (take bm25_query_token_cap query)
            (e ∷ es) in
        elim (Bool-cases (ltb 0 total)) [
          | inr none_at_all ↦ rw none_at_all (tokenless (λ h. cc h) (ground (arith, none_at_all)))
          | inl has_tokens ↦ elim (Result-cases scored) [
            | inl (r, eq) ↦
                let (kept, fin, scores) =
                  score_events-eq-ok s (length (e ∷ es)) total documents
                    (take bm25_query_token_cap query) (e ∷ es) eq in
                rw (has_tokens, eq)
                  (ranked
                    (subst (λ t. Perm (events_of s (sort_ranked s r)) t) kept (sort_ranked-perm r))
                    (sort_ranked-All (λ a. is_finite a.score ≡ true) r fin)
                    (sort_ranked-All _ r scores) (sort_ranked-IsRanked r fin))
            | inr (x, eq) ↦
                let (which, (bad, pre, post, at, off)) =
                  score_events-eq-err s (length (e ∷ es)) total documents
                    (take bm25_query_token_cap query) (e ∷ es) eq in
                rw (has_tokens, eq, which)
                  (overflowed bad pre post at (
                    ap is_finite (
                      sym (
                        score_terms-sum s (length (e ∷ es)) total documents
                          (get_or bad.event_id [] documents) (take bm25_query_token_cap query)
                          zero_score))
                    ∙ off))
          ]
        ]
