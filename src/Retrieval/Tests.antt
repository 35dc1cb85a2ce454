-- ===== src/Retrieval/Tests.antt =====
-- Searches over a store of two chunks, and the theorems there.
use llm_chat_platform.Base.{
  ℕ, ◌≡◌, refl, Bool, true, false, ◌==◌, List, [], ◌∷◌, All, Option, none, some, Text, codes, arith,
}
use llm_chat_platform.Base.Int.{ℤ, pos}
use llm_chat_platform.Json.{Value, int, list, dict, items_of, end, field}
use llm_chat_platform.Provider.{Outcome, returned, raised, timed_out}
use llm_chat_platform.Rag.{Augmentor, augment}
use llm_chat_platform.Rerank.{
  RerankRequest, Reranked, Numbers, HttpAnswer, AwsAnswer, passed, transport_failed, client_error,
  aws_response,
}
use llm_chat_platform.Rerank.Normal.{cascade-IsNormal}
use llm_chat_platform.Retrieval.{
  RetrievedChunk, PipelineResult, Pipeline, ranked_chunk, in_store_order, rewrite, judged, retrieve,
}
use llm_chat_platform.Route.Sample.{greeting}
use llm_chat_platform.Retrieval.Asked.{IsRewritten}
use llm_chat_platform.Retrieval.Ranked.{IsRetrieved, retrieve-IsRetrieved}
use llm_chat_platform.Retrieval.Fallback.{production, retrieve_few}
use llm_chat_platform.Retrieval.Sources.{IsQuoted, retrieval_of, augment-retrieve}

abbrev is_blank : ℕ → Bool
is_blank c = c == 32

abbrev to_int : Value → Option ℤ
to_int (int z) = some z
to_int v = none

abbrev python : Numbers
python = record { int_of = to_int; is_float = λ v. true }

abbrev chunk_a : RetrievedChunk
chunk_a = record { chunk_id = codes "1"; document_id = codes "7"; text = codes "alpha" }

abbrev chunk_b : RetrievedChunk
chunk_b = record { chunk_id = codes "2"; document_id = codes "7"; text = codes "beta" }

abbrev store : List RetrievedChunk
store = chunk_a ∷ chunk_b ∷ []

abbrev swapped : AwsAnswer
swapped = aws_response (
    dict (
      field "results"
        (list (
          items_of
            (dict (field "index" (int (pos 1)) end) ∷ dict (field "index" (int (pos 0)) end) ∷ [])))
        end))

abbrev to_production : RerankRequest → Reranked
to_production =
    production is_blank python (codes "project") (passed (codes "t")) transport_failed none swapped

-- The provider is down: the query stays as it is.
abbrev searching : Pipeline
searching = record {
  Embedding = Text;
  is_space = is_blank;
  upper = λ t. t;
  generate = λ ms. raised timed_out;
  embed_one = returned;
  hybrid_search = λ q v k. returned store;
  rerank = to_production;
  top_k_candidates = 20;
  top_n = 5;
  min_reranked_results = 1;
}

abbrev asked : Text
asked = codes "what"

abbrev reranked : Outcome PipelineResult
reranked = returned (
    judged searching asked asked (ranked_chunk chunk_b (pos 1) ∷ ranked_chunk chunk_a (pos 2) ∷ [])
      false false)

-- As many as the store has: in the reranker's order.
two_asked : retrieve searching asked (some 2) ≡ reranked
unfolding retrieve llm_chat_platform.Rerank.cascade llm_chat_platform.Rerank.gcp_rerank
    llm_chat_platform.Rerank.aws_rerank
two_asked = refl

-- By default 5 are asked of the same store, and the same reranker is never asked.
five_asked :
    retrieve searching asked none
    ≡ returned (judged searching asked asked (in_store_order 1 store) true false)
unfolding retrieve llm_chat_platform.Rerank.cascade llm_chat_platform.Rerank.gcp_rerank
five_asked = refl

-- A provider that answers, and a limit that two chunks do not reach: the evaluator is asked.
abbrev judging : Pipeline
judging = record searching { generate = λ ms. returned greeting; min_reranked_results = 3 }

verdict_asked :
    retrieve judging asked (some 2)
    ≡ returned (record {
      query = asked;
      rewritten_query = codes "hello\n there";
      chunks = ranked_chunk chunk_b (pos 1) ∷ ranked_chunk chunk_a (pos 2) ∷ [];
      fallback_triggered = false;
      evaluator_triggered = true;
      evaluator_verdict = some (codes "hello\n there");
    })
unfolding retrieve llm_chat_platform.Rerank.cascade llm_chat_platform.Rerank.gcp_rerank
    llm_chat_platform.Rerank.aws_rerank
verdict_asked = refl

retrieve-IsRetrieved_example :
    IsRewritten searching asked (rewrite searching asked)
    × IsRetrieved searching asked 2 (retrieve searching asked (some 2))
retrieve-IsRetrieved_example = retrieve-IsRetrieved searching asked (some 2) (
    cascade-IsNormal is_blank python (codes "project") (passed (codes "t")) transport_failed
      swapped)

retrieve_few_example :
    retrieve searching asked none
    ≡ returned
        (judged searching asked (rewrite searching asked) (in_store_order 1 store) true false)
retrieve_few_example =
    retrieve_few is_blank python (codes "project") (passed (codes "t")) transport_failed none
      swapped searching asked none (rewrite searching asked) chunk_a (chunk_b ∷ []) refl refl refl
      (omega arith)

abbrev limits : Augmentor
limits = record { max_sources = 2; max_source_chars = 4; max_context_chars = 100 }

augment-retrieve_example :
    All
      (IsQuoted searching asked)
      (augment limits (retrieval_of (retrieve searching asked (some 2)))).sources
augment-retrieve_example = augment-retrieve limits searching asked (some 2) (
    cascade-IsNormal is_blank python (codes "project") (passed (codes "t")) transport_failed
      swapped)
