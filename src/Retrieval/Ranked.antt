-- ===== src/Retrieval/Ranked.antt =====
-- What `retrieve` gives over a reranker that keeps its contract.
use mathlib.Core.Path.{subst}
use llm_chat_platform.Base.{
  ℕ, ◌<◌, ◌≤◌, ◌≡◌, refl, none, Bool-cases, ltb→ge, inl, inr, Bool, true, false, List, [], ◌∷◌, map,
  length-map, Option, some, Text, length, take, ltb, ltb→lt,
}
use llm_chat_platform.Base.Int.{pos}
use llm_chat_platform.Provider.{Failure, Outcome, returned, raised, Outcome-cases}
use llm_chat_platform.Rag.{RankedChunk}
use llm_chat_platform.Rerank.{RerankRequest, Reranked, ranked, refused, RankedDocument}
use llm_chat_platform.Rerank.Normal.{IsNormal, in_order, may_retry, may_not_retry}
use llm_chat_platform.Retrieval.{
  RetrievedChunk, PipelineResult, Pipeline, text_of, rewrite, of_reranked, rerank_candidates,
  judged, with_candidates, effective_top_n, retrieve,
}
use llm_chat_platform.Retrieval.Picked.{
  IsPicked, IsListed, sort_documents-InOrder, pick_chunks-IsPicked, in_store_order-IsListed,
}
use llm_chat_platform.Retrieval.Asked.{
  IsRewritten, IsVerdict, rewrite-IsRewritten, evaluate-IsVerdict,
}

-- How the chunks of a result come from the candidates: by the reranker, or in the store's order.
pub data IsOrderOf (cs : List RetrievedChunk) (top_n : ℕ)
    : Reranked → List RankedChunk → (fallback : Bool) → Type 0 where
  by_reranker :
      (ds : List RankedDocument) (chunks : List RankedChunk)
      → IsPicked cs 1 ds chunks
      → IsOrderOf cs top_n (ranked ds) chunks false
  by_store :
      (e : _) (chunks : List RankedChunk)
      → IsListed 1 (take top_n cs) chunks
      → IsOrderOf cs top_n (refused e) chunks true

-- The part of the evaluator: asked about the chunks where there are too few of them, and only there.
pub data IsJudged (p : Pipeline) (r : PipelineResult) : Type 0 where
  enough :
      p.min_reranked_results ≤ length r.chunks
      → r.evaluator_triggered ≡ false
      → r.evaluator_verdict ≡ none
      → IsJudged p r
  too_few :
      length r.chunks < p.min_reranked_results
      → r.evaluator_triggered ≡ true
      → IsVerdict p r.rewritten_query r.chunks r.evaluator_verdict
      → IsJudged p r

-- What `retrieve` gives.
pub data IsRetrieved (p : Pipeline) (query : Text) (top_n : ℕ)
    : Outcome PipelineResult → Type 0 where
  no_embedding :
      (e : Failure)
      → p.embed_one (rewrite p query) ≡ raised e
      → IsRetrieved p query top_n (raised e)
  no_search :
      (v : p.Embedding) (e : Failure)
      → p.embed_one (rewrite p query) ≡ returned v
      → p.hybrid_search (rewrite p query) v p.top_k_candidates ≡ raised e
      → IsRetrieved p query top_n (raised e)
  nothing :
      (v : p.Embedding) (r : PipelineResult)
      → p.embed_one (rewrite p query) ≡ returned v
      → p.hybrid_search (rewrite p query) v p.top_k_candidates ≡ returned []
      → (r.query ≡ query) × (r.rewritten_query ≡ rewrite p query)
      → (r.chunks ≡ []) × (r.fallback_triggered ≡ false)
      → (r.evaluator_triggered ≡ false) × (r.evaluator_verdict ≡ none)
      → IsRetrieved p query top_n (returned r)
  found :
      (v : p.Embedding) (c : RetrievedChunk) (cs : List RetrievedChunk) (r : PipelineResult)
      → p.embed_one (rewrite p query) ≡ returned v
      → p.hybrid_search (rewrite p query) v p.top_k_candidates ≡ returned (c ∷ cs)
      → (r.query ≡ query) × (r.rewritten_query ≡ rewrite p query)
      → IsOrderOf
          (c ∷ cs)
          top_n
          (p.rerank (record {
            query = rewrite p query;
            documents = map text_of (c ∷ cs);
            top_n = some (pos top_n);
          }))
          r.chunks
          r.fallback_triggered
      → IsJudged p r
      → IsRetrieved p query top_n (returned r)

module _ (p : Pipeline) where
  of_reranked-IsOrderOf :
      (cs : List RetrievedChunk) (top_n : ℕ) (r : Reranked)
      → IsNormal (length cs) r
      → (chunks : List RankedChunk) × (fallback : Bool) × (of_reranked p cs top_n r
          ≡ returned (chunks, fallback))
        × IsOrderOf cs top_n r chunks fallback
  of_reranked-IsOrderOf cs top_n _ (in_order ds good) =
      let (chunks, eq, drawn) = pick_chunks-IsPicked cs 1 ds good in
      (
        chunks,
        false,
        rw (sort_documents-InOrder (length cs) 1 ds good, eq) refl,
        by_reranker ds chunks drawn,
      )
  of_reranked-IsOrderOf cs top_n _ (may_retry code) =
      (_, true, refl, by_store _ _ (in_store_order-IsListed 1 (take top_n cs)))
  of_reranked-IsOrderOf cs top_n _ (may_not_retry code) =
      (_, true, refl, by_store _ _ (in_store_order-IsListed 1 (take top_n cs)))

  judged-IsJudged :
      (query rewritten : Text) (chunks : List RankedChunk) (fallback : Bool)
      → IsJudged p
          (judged p query rewritten chunks fallback (ltb (length chunks) p.min_reranked_results))
  judged-IsJudged query rewritten chunks fallback =
      elim (Bool-cases (ltb (length chunks) p.min_reranked_results)) [
        | inl few ↦ too_few (ltb→lt _ _ few) few (rw few (evaluate-IsVerdict p rewritten chunks))
        | inr many ↦ enough (ltb→ge _ _ many) many (rw many refl)
      ]

  with_candidates-IsRetrieved :
      (query : Text) (top_n : ℕ) (v : p.Embedding) (cs : List RetrievedChunk)
      → ((r : RerankRequest) → IsNormal (length r.documents) (p.rerank r))
      → p.embed_one (rewrite p query) ≡ returned v
      → p.hybrid_search (rewrite p query) v p.top_k_candidates ≡ returned cs
      → IsRetrieved p query top_n (with_candidates p query (rewrite p query) top_n cs)
  unfolding rerank_candidates
  with_candidates-IsRetrieved query top_n v [] contract embedded e =
      nothing v _ embedded e (refl, refl) (refl, refl) (refl, refl)
  with_candidates-IsRetrieved query top_n v (c ∷ cs) contract embedded e =
      let r : RerankRequest = record {
        query = rewrite p query;
        documents = map text_of (c ∷ cs);
        top_n = some (pos top_n);
      } in
      let normal : IsNormal (length (c ∷ cs)) (p.rerank r) =
        subst (λ n. IsNormal n (p.rerank r)) (length-map text_of (c ∷ cs)) (contract r) in
      let (chunks, fallback, eq, order) =
        of_reranked-IsOrderOf (c ∷ cs) top_n (p.rerank r) normal in
      rw eq (
        found v c cs _ embedded e (refl, refl) order
          (judged-IsJudged query (rewrite p query) chunks fallback))

  outcome-IsRetrieved :
      (query : Text) (top_n : Option ℕ)
      → ((r : RerankRequest) → IsNormal (length r.documents) (p.rerank r))
      → IsRetrieved p query (effective_top_n p top_n) (retrieve p query top_n)
  unfolding retrieve
  outcome-IsRetrieved query top_n contract = elim (Outcome-cases (p.embed_one (rewrite p query))) [
    | inr (e, failed) ↦ rw failed (no_embedding e failed)
    | inl (v, embedded) ↦
        elim (Outcome-cases (p.hybrid_search (rewrite p query) v p.top_k_candidates)) [
          | inr (e, failed) ↦ rw (embedded, failed) (no_search v e embedded failed)
          | inl (cs, searched) ↦
              rw (embedded, searched)
                (with_candidates-IsRetrieved query _ v cs contract embedded searched)
        ]
  ]

  -- Over a reranker whose answers are normal `retrieve` raises only what embedding or searching
  -- raised. Otherwise the result carries the query and its rewriting, which is the provider's text
  -- without the white space around it, or the query where that call raised or gave only white space.
  -- The search is for the rewriting. An empty search gives no chunks.
  -- Candidates come in the reranker's order, numbered from 1, each the candidate at its index, or,
  -- where it failed, the first `top_n` of them in the store's order, flagged. The evaluator is asked
  -- about those chunks exactly where they are too few; its verdict is its word in capitals, and there
  -- is none where it was not asked, raised or gave no word.
  pub retrieve-IsRetrieved :
      (query : Text) (top_n : Option ℕ)
      → ((r : RerankRequest) → IsNormal (length r.documents) (p.rerank r))
      → IsRewritten p query (rewrite p query)
        × IsRetrieved p query (effective_top_n p top_n) (retrieve p query top_n)
  retrieve-IsRetrieved query top_n contract =
      (rewrite-IsRewritten p query, outcome-IsRetrieved query top_n contract)
