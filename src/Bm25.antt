-- ===== src/Bm25.antt =====
-- BM25 ranking and skip-and-continue selection: app/core/domain/bm25_ranking.py. The Unicode
-- tokenizer and the floating-point arithmetic are parameters: `lexical_tokens`, and `Scores`.
pub mod Query
pub mod Selection
pub mod Scoring
pub mod Ranking
mod Tests
use llm_chat_platform.Base.{
  ℕ, zero, suc, ◌+◌, ◌-◌, Bool, true, false, not, ◌&&◌, ◌||◌, List, [], ◌∷◌, ◌++◌, map, Option,
  none, some, Text, text_eq, length, take, ltb, leb, ◌==◌, if◌then◌else◌, Result, ok, err,
  value_error, ◌>>=◌, ◌>>◌, guard,
}
use llm_chat_platform.Turns.{CorpusEvent, document_text}

abbrev pub bm25_query_token_cap : ℕ
bm25_query_token_cap = 256

abbrev pub bm25_top_k : ℕ
bm25_top_k = 5

-- `token in seen`
abbrev pub contains : Text → List Text → Bool
contains t [] = false
contains t (u ∷ us) = text_eq t u || contains t us

-- The loop of `query_tokens`: the tokens not seen before, in order.
unfoldable pub unique_tokens : (seen tokens : List Text) → List Text
unique_tokens seen [] = []
unique_tokens seen (t ∷ ts) =
    let old = unique_tokens seen ts in
    let new = t ∷ unique_tokens (t ∷ seen) ts in if contains t seen then old else new

unfoldable pub query_tokens : (lexical_tokens : Text → List Text) → Text → List Text
unfolding unique_tokens
query_tokens lexical_tokens text =
    take bm25_query_token_cap (unique_tokens [] (lexical_tokens text))

-- A Python dict keyed by event ids.
abbrev pub put {ℓ} : {V : Type ℓ} → ℕ → V → List (ℕ × V) → List (ℕ × V)
put k v [] = (k, v) ∷ []
put k v ((j, w) ∷ d) = if j == k then (k, v) ∷ d else (j, w) ∷ put k v d

abbrev pub get_or {ℓ} : {V : Type ℓ} → ℕ → V → List (ℕ × V) → V
get_or k v [] = v
get_or k v ((j, w) ∷ d) = if j == k then w else get_or k v d

-- `Counter(tokens)[term]`, and the documents that hold a term.
abbrev pub count_in : Text → List Text → ℕ
count_in t [] = 0
count_in t (u ∷ us) = let rest = count_in t us in if text_eq t u then suc rest else rest

abbrev pub documents_with : Text → List (ℕ × List Text) → ℕ
documents_with t [] = 0
documents_with t ((_, tokens) ∷ d) =
    let rest = documents_with t d in if contains t tokens then suc rest else rest

abbrev pub total_length : List (ℕ × List Text) → ℕ
total_length [] = 0
total_length ((_, tokens) ∷ d) = length tokens + total_length d

-- The floats: the contribution of one term (from the number of documents, those with the term, its
-- frequency in the document, the document's length and the corpus's length), sums, `isfinite`, and
-- the order `>=`.
pub record Scores : Type 1 where
  pub Score : Type 0
  pub zero_score : Score
  pub add : Score → Score → Score
  pub term_score : (document_count df frequency document_length corpus_length : ℕ) → Score
  pub is_finite : Score → Bool
  pub at_least : Score → Score → Bool

module _ (s : Scores) where
  open s use {Score, zero_score, add, term_score, is_finite, at_least}

  pub record RankedEvent : Type 0 where
    pub event : CorpusEvent
    pub score : Score

  -- The loop over the query's terms for one document.
  unfoldable pub score_terms :
      (count total : ℕ) → List (ℕ × List Text) → (tokens query : List Text) → Score → Score
  score_terms count total documents tokens [] acc = acc
  score_terms count total documents tokens (term ∷ query) acc =
      let frequency = count_in term tokens in
      score_terms count total documents tokens query (
        if frequency == 0
        then acc
        else add acc
            (term_score count (documents_with term documents) frequency (length tokens) total))

  -- `(-score, event_id)` of the first is not above that of the second.
  abbrev pub ranks_before : RankedEvent → RankedEvent → Bool
  ranks_before a b =
      at_least a.score b.score
      && (not (at_least b.score a.score) || leb a.event.event_id b.event.event_id)

  unfoldable pub insert_ranked : RankedEvent → List RankedEvent → List RankedEvent
  insert_ranked a [] = a ∷ []
  insert_ranked a (b ∷ bs) = if ranks_before a b then a ∷ b ∷ bs else b ∷ insert_ranked a bs

  unfoldable pub sort_ranked : List RankedEvent → List RankedEvent
  unfolding insert_ranked
  sort_ranked [] = []
  sort_ranked (a ∷ rest) = insert_ranked a (sort_ranked rest)

  unfoldable pub score_events :
      (count total : ℕ)
      → List (ℕ × List Text)
      → (query : List Text) → List CorpusEvent
      → Result (List RankedEvent)
  unfolding score_terms
  score_events count total documents query [] = ok []
  score_events count total documents query (e ∷ es) = do
    let score = score_terms count total documents (get_or e.event_id [] documents) query zero_score
    guard (is_finite score) value_error
    rest ← score_events count total documents query es
    ok (record { event = e; score = score } ∷ rest)

  module _ (lexical_tokens : Text → List Text) where
    -- `{event.event_id: lexical_tokens(event.document_text) for event in events}`
    unfoldable pub document_tokens : List CorpusEvent → List (ℕ × List Text) → List (ℕ × List Text)
    document_tokens [] d = d
    document_tokens (e ∷ es) d =
        document_tokens es (put e.event_id (lexical_tokens (document_text e.unit)) d)

    unfoldable pub rank_events : List CorpusEvent → List Text → Result (List RankedEvent)
    unfolding document_tokens score_events sort_ranked
    rank_events [] query = ok []
    rank_events (e ∷ es) query = do
      let documents = document_tokens (e ∷ es) []
      guard (ltb 0 (total_length documents)) value_error
      ranked ←
          score_events (length (e ∷ es)) (total_length documents) documents
            (take bm25_query_token_cap query) (e ∷ es)
      ok (sort_ranked ranked)

abbrev pub excludes : ℕ → List ℕ → Bool
excludes i [] = false
excludes i (j ∷ js) = i == j || excludes i js

abbrev pub size_of : CorpusEvent → ℕ
size_of e = length (document_text e.unit)

abbrev pub total_size : List CorpusEvent → ℕ
total_size [] = 0
total_size (e ∷ es) = size_of e + total_size es

-- The loop of `pack_selected_events`: the events that it accepts from here on, when `accepted`
-- events of `used` characters are accepted already.
unfoldable pub pack_from :
    (max_chars : ℕ) (excluded_ids : List ℕ) (accepted used : ℕ)
    → List CorpusEvent
    → List CorpusEvent
pack_from max_chars excluded_ids accepted used [] = []
pack_from max_chars excluded_ids accepted used (e ∷ es) =
    let rest = pack_from max_chars excluded_ids accepted used es in
    let admitted = e ∷ pack_from max_chars excluded_ids (suc accepted) (used + size_of e) es in
    if excludes e.event_id excluded_ids
    then rest
    else if accepted == bm25_top_k
    then []
    else if leb (size_of e) (max_chars - used)
    then admitted
    else rest

-- `pack_selected_events`, on the events of the ranked list. `max_chars` is what a positive setting
-- leaves, so a natural number.
unfoldable pub pack_selected_events :
    (max_chars : ℕ) (excluded_ids : List ℕ) → List CorpusEvent → List CorpusEvent × ℕ
unfolding pack_from
pack_selected_events max_chars excluded_ids ranked =
    let accepted = pack_from max_chars excluded_ids 0 0 ranked in (accepted, total_size accepted)
