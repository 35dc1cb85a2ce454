-- ===== src/Retrieval/Fallback.antt =====
-- A search that finds fewer candidates than `top_n` asks for.
use llm_chat_platform.Base.{
  ℕ, ◌<◌, ◌≡◌, refl, Bool, true, false, not, ◌&&◌, List, ◌∷◌, map, length-map, Option, none, some,
  Text, length, take, take-eq_of_le, is_nil, strip, leb, ltb, arith, ap, ◌∙◌,
}
use llm_chat_platform.Base.Int.{pos}
use llm_chat_platform.Provider.{returned}
use llm_chat_platform.Rerank.{
  RerankRequest, Reranked, Checked, Numbers, HttpAnswer, AwsAnswer, refused, terminal,
  validate_request, any_blank, limit_test, gcp_rerank, aws_rerank, cascade,
}
use llm_chat_platform.Retrieval.{
  RetrievedChunk, Pipeline, text_of, in_store_order, rewrite, rerank_candidates, judged,
  effective_top_n, retrieve,
}

&&-false : (b : Bool) → (b && false) ≡ false
&&-false true = refl
&&-false false = refl

-- A request for more than the documents is refused before any call.
validate_request-small :
    (is_space : ℕ → Bool) (limit : Option ℕ) (query : Text) (documents : List Text) (n : ℕ)
    → length documents < n
    → validate_request is_space limit
        (record { query = query; documents = documents; top_n = some (pos n) })
      ≡ false
unfolding validate_request
validate_request-small is_space limit query documents n h =
    let small : leb n (length documents) ≡ false = ground arith in
    rw
      (
        small,
        &&-false (not (any_blank is_space documents)),
        &&-false (limit_test limit (length documents)),
        &&-false (not (is_nil (strip is_space query))),
      )
      refl

module _ (is_space : ℕ → Bool) (convert : Numbers) (project_id : Text) (token : Checked Text)
    (gcp : HttpAnswer) (build : Option ℕ) (aws : AwsAnswer) where
  -- The reranker of `build_reranker`.
  abbrev pub production : RerankRequest → Reranked
  production =
      cascade (gcp_rerank is_space convert project_id token gcp)
        (aws_rerank is_space convert build aws)

  production-small :
      (query : Text) (documents : List Text) (n : ℕ)
      → length documents < n
      → production (record { query = query; documents = documents; top_n = some (pos n) })
        ≡ refused (terminal none)
  unfolding cascade gcp_rerank
  production-small query documents n h =
      rw (validate_request-small is_space (some 200) query documents n h) refl

  -- Under the production reranker, whatever its vendors would answer, a search with at least one
  -- candidate but fewer than `top_n` is never reranked: the result has all candidates in the store's
  -- order and is flagged as a fallback.
  pub retrieve_few :
      (p : Pipeline) (query : Text) (top_n : Option ℕ) (v : p.Embedding) (c : RetrievedChunk)
      (cs : List RetrievedChunk)
      → p.rerank ≡ production
      → p.embed_one (rewrite p query) ≡ returned v
      → p.hybrid_search (rewrite p query) v p.top_k_candidates ≡ returned (c ∷ cs)
      → length (c ∷ cs) < effective_top_n p top_n
      → retrieve p query top_n
        ≡ returned (
            judged p query
              (rewrite p query)
              (in_store_order 1 (c ∷ cs))
              true
              (ltb (length (in_store_order 1 (c ∷ cs))) p.min_reranked_results))
  unfolding retrieve rerank_candidates
  retrieve_few p query top_n v c cs production_used embedded searched few =
      let n = effective_top_n p top_n in
      let texts : length (map text_of (c ∷ cs)) < n =
        omega (arith, few, length-map text_of (c ∷ cs)) in
      let refusal : p.rerank (record {
        query = rewrite p query;
        documents = map text_of (c ∷ cs);
        top_n = some (pos n);
      })
          ≡ refused (terminal none) =
        ap
          (λ f. f (record {
            query = rewrite p query;
            documents = map text_of (c ∷ cs);
            top_n = some (pos n);
          }))
          production_used
        ∙ production-small (rewrite p query) (map text_of (c ∷ cs)) n texts in
      let whole : take n (c ∷ cs) ≡ c ∷ cs = take-eq_of_le n (c ∷ cs) (omega (arith, few)) in
      rw (embedded, searched, refusal, whole) refl
