-- ===== src/Bm25/Scoring.antt =====
-- The score of each event in a ranking.
use mathlib.Core.Path.{subst}
use llm_chat_platform.Base.{
  Exn, ◌≡◌, refl, ap, ℕ, ◌<◌, false, select, ◌==◌, true, inl, inr, List, [], ◌∷◌, map, Text, length,
  Bool-cases, All, ok, err, value_error, ◌++◌, guard, >>=-eq-ok, >>=-eq-err, guard-eq-ok,
  guard-eq-err, arith,
}
use llm_chat_platform.Turns.{CorpusEvent}
use llm_chat_platform.Bm25.{
  contains, count_in, documents_with, Scores, RankedEvent, score_terms, get_or, score_events,
}

module _ (s : Scores) where
  open s use {Score, zero_score, is_finite}

  abbrev pub events_of : List (RankedEvent s) → List CorpusEvent
  events_of = map (λ a. a.event)

  -- The score of a document: the contributions of the query's terms that occur in it, in order.
  abbrev pub sum_from : Score → List Score → Score
  sum_from acc [] = acc
  sum_from acc (x ∷ xs) = sum_from (s.add acc x) xs

  abbrev pub term_scores :
      (count total : ℕ) → List (ℕ × List Text) → (tokens query : List Text) → List Score
  term_scores count total documents tokens query =
      map
        (λ term.
          s.term_score count (documents_with term documents) (count_in term tokens) (length tokens)
            total)
        (select (λ term. contains term tokens) query)

  abbrev pub bm25_score :
      (count total : ℕ) → List (ℕ × List Text) → (query : List Text) → CorpusEvent → Score
  bm25_score count total documents query e =
      sum_from zero_score (term_scores count total documents (get_or e.event_id [] documents) query)

  count_in-absent : (t : Text) (ts : List Text) → contains t ts ≡ false → count_in t ts ≡ 0
  count_in-absent t [] h = refl
  count_in-absent t (u ∷ us) h = ground (arith, count_in-absent t us)

  count_in-present : (t : Text) (ts : List Text) → contains t ts ≡ true → 0 < count_in t ts
  count_in-present t [] h = absurd cc
  count_in-present t (u ∷ us) h = ground (arith, count_in-present t us)

  pub score_terms-sum :
      (count total : ℕ) (documents : List (ℕ × List Text)) (tokens query : List Text) (acc : Score)
      → score_terms s count total documents tokens query acc
        ≡ sum_from acc (term_scores count total documents tokens query)
  unfolding score_terms
  score_terms-sum count total documents tokens [] acc = refl
  score_terms-sum count total documents tokens (t ∷ query) acc =
      elim (Bool-cases (contains t tokens)) [
        | inl occurs ↦
            let some_time : (count_in t tokens == 0) ≡ false =
              ground (arith, count_in-present t tokens occurs) in
            rw (occurs, some_time) (score_terms-sum count total documents tokens query _)
        | inr absent ↦
            let never : (count_in t tokens == 0) ≡ true =
              ground (arith, count_in-absent t tokens absent) in
            rw (absent, never) (score_terms-sum count total documents tokens query acc)
      ]

  abbrev pub AreFinite : List (RankedEvent s) → Type 0
  AreFinite = All (λ a. is_finite a.score ≡ true)

  -- Each event has its score.
  abbrev pub AreScored :
      (count total : ℕ) → List (ℕ × List Text) → (query : List Text) → List (RankedEvent s) → Type 0
  AreScored count total documents query =
      All (λ a. a.score ≡ bm25_score count total documents query a.event)

  -- `score_events` keeps the events in order and scores them, all finite.
  pub score_events-eq-ok :
      (count total : ℕ) (documents : List (ℕ × List Text)) (query : List Text)
      (es : List CorpusEvent) {ranked : List (RankedEvent s)}
      → score_events s count total documents query es ≡ ok ranked
      → (events_of ranked ≡ es) × AreFinite ranked × AreScored count total documents query ranked
  unfolding score_events
  score_events-eq-ok count total documents query [] {ranked} h =
      let eq : [] ≡ ranked = cc in
      subst (λ r. (events_of r ≡ []) × AreFinite r × AreScored count total documents query r) eq
        (refl, tt, tt)
  score_events-eq-ok count total documents query (e ∷ es) {ranked} h =
      let score =
        score_terms s count total documents (get_or e.event_id [] documents) query zero_score in
      let (_, finite, h1) = >>=-eq-ok (guard (is_finite score) value_error) _ h in
      let (rest, scored, h2) = >>=-eq-ok (score_events s count total documents query es) _ h1 in
      let (events, all_finite, all_scored) =
        score_events-eq-ok count total documents query es scored in
      let eq : record { event = e; score = score } ∷ rest ≡ ranked = cc in
      subst (λ r. (events_of r ≡ e ∷ es) × AreFinite r × AreScored count total documents query r) eq
        (
          ap (λ t. e ∷ t) events,
          (guard-eq-ok (is_finite score) value_error finite, all_finite),
          (
            score_terms-sum count total documents (get_or e.event_id [] documents) query zero_score,
            all_scored,
          ),
        )

  -- A failure of `score_events` names an event whose score is not finite.
  pub score_events-eq-err :
      (count total : ℕ) (documents : List (ℕ × List Text)) (query : List Text)
      (es : List CorpusEvent) {x : Exn}
      → score_events s count total documents query es ≡ err x
      → (x ≡ value_error)
        × ((e : CorpusEvent) × (pre : List CorpusEvent) × (post : List CorpusEvent) × (es
              ≡ pre ++ e ∷ post)
            × (is_finite (
                  score_terms s count total documents
                    (get_or e.event_id [] documents)
                    query
                    zero_score)
                ≡ false))
  unfolding score_events
  score_events-eq-err count total documents query [] h = absurd cc
  score_events-eq-err count total documents query (e ∷ es) {x} h =
      let score =
        score_terms s count total documents (get_or e.event_id [] documents) query zero_score in
      elim (>>=-eq-err (guard (is_finite score) value_error) _ h) [
        | inl stop ↦
            let (bad, which) = guard-eq-err (is_finite score) value_error stop in
            (which, (e, [], es, refl, bad))
        | inr (_, _, h1) ↦ elim (>>=-eq-err (score_events s count total documents query es) _ h1) [
          | inl failed ↦
              let (which, (bad, pre, post, eq, off)) =
                score_events-eq-err count total documents query es failed in
              (which, (bad, e ∷ pre, post, ap (λ t. e ∷ t) eq, off))
          | inr (_, _, h2) ↦ absurd cc
        ]
      ]
