-- ===== src/Bm25/Tests.antt =====
-- A ranking and a selection of short documents, and their theorems there. The tokenizer of these
-- tests makes each code point a token, and their scores are natural numbers.
use llm_chat_platform.Base.{
  ◌≡◌, refl, ℕ, ◌+◌, true, ◌||◌, List, [], ◌∷◌, map, Text, codes, leb, ok, arith,
}
use llm_chat_platform.Chat.{user}
use llm_chat_platform.Turns.{CorpusEvent}
use llm_chat_platform.Bm25.{Scores, query_tokens, rank_events, pack_selected_events}
use llm_chat_platform.Bm25.Ranking.{IsRankingOf, rank_events-IsRankingOf}
use llm_chat_platform.Bm25.Selection.{IsSelection, pack_selected_events-IsSelection}

abbrev letters : Text → List Text
letters t = map (λ c. c ∷ []) t

abbrev counts : Scores
counts = record {
  Score = ℕ;
  zero_score = 0;
  add = λ a b. a + b;
  term_score = λ count df frequency document_length corpus_length. frequency;
  is_finite = λ a. leb a 100;
  at_least = λ a b. leb b a;
}

counts-total : (x y : ℕ) → leb x 100 ≡ true → leb y 100 ≡ true → (leb y x || leb x y) ≡ true
counts-total x y hx hy = ground arith

abbrev event_at : ℕ → Text → CorpusEvent
event_at i t = record {
  event_id = i;
  unit = record { messages = record { sequence = i; role = user; content = t } ∷ [] };
}

abbrev corpus : List CorpusEvent
corpus = event_at 1 (codes "abc") ∷ event_at 3 (codes "aab") ∷ event_at 5 (codes "xyzxyz") ∷ []

query_of_abca : query_tokens letters (codes "abca") ≡ codes "a" ∷ codes "b" ∷ codes "c" ∷ []
unfolding query_tokens
query_of_abca = refl

rank_corpus :
    rank_events counts letters corpus (codes "a" ∷ [])
    ≡ ok (
        record { event = event_at 3 (codes "aab"); score = 2 }
        ∷ record { event = event_at 1 (codes "abc"); score = 1 }
        ∷ record { event = event_at 5 (codes "xyzxyz"); score = 0 }
        ∷ [])
unfolding rank_events
rank_corpus = refl

-- The long event is passed over and the later, smaller one admitted.
pack_corpus :
    pack_selected_events 5 (1 ∷ []) (event_at 5 (codes "xyzxyz") ∷ corpus)
    ≡ (event_at 3 (codes "aab") ∷ [], 3)
unfolding pack_selected_events
pack_corpus = refl

rank_events-IsRankingOf_example :
    IsRankingOf counts counts-total letters corpus
      (codes "a" ∷ [])
      (rank_events counts letters corpus (codes "a" ∷ []))
rank_events-IsRankingOf_example =
    rank_events-IsRankingOf counts counts-total letters corpus (codes "a" ∷ [])

pack_selected_events-IsSelection_example :
    IsSelection 5
      (1 ∷ [])
      corpus
      (pack_selected_events 5 (1 ∷ []) corpus).0
      (pack_selected_events 5 (1 ∷ []) corpus).1
pack_selected_events-IsSelection_example = pack_selected_events-IsSelection 5 (1 ∷ []) corpus
