-- ===== src/Retrieval.antt =====
-- The retrieval pipeline: app/core/domain/retrieval_pipeline.py. The provider, the embedding, the
-- hybrid search and the reranker are arguments, what each call gives; so is Python's `upper`.
-- Identifiers, spans, logs and the latency are left out.
pub mod Asked
pub mod Picked
pub mod Ranked
pub mod Fallback
pub mod Sources
mod Tests
use llm_chat_platform.Base.{
  ℕ, zero, suc, ◌-◌, Bool, true, false, List, [], ◌∷◌, ◌++◌, map, Option, none, some, Text, codes,
  length, take, get_elem?, is_nil, strip, non_empty_or, some_unless_empty, ltb, leb, if◌then◌else◌,
}
use llm_chat_platform.Base.Int.{ℤ, pos, negsuc, leb_ℤ}
use llm_chat_platform.Chat.{ChatMessage, system, user}
use llm_chat_platform.Provider.{Failure, Outcome, ProviderResult, returned, raised, other_error}
use llm_chat_platform.Rag.{RankedChunk}
use llm_chat_platform.Rerank.{
  RerankRequest, RankedDocument, RerankFailure, Reranked, ranked, refused, transient, terminal,
  plain_error, unnormalized,
}

-- A chunk as the store gives it; its score is not read.
pub record RetrievedChunk : Type 0 where
  pub chunk_id : Text
  pub document_id : Text
  pub text : Text

pub record PipelineResult : Type 0 where
  pub query : Text
  pub rewritten_query : Text
  pub chunks : List RankedChunk
  pub fallback_triggered : Bool
  pub evaluator_triggered : Bool
  pub evaluator_verdict : Option Text

unfoldable pub rewrite_prompt : Text
rewrite_prompt =
    codes
      "You rewrite a user's search query to improve retrieval over a technical document corpus. Preserve the query's original language. Paraphrase and expand likely abbreviations or synonyms; do not narrow or answer the query. Reply with only the rewritten query, one line, no commentary."

unfoldable pub evaluator_prompt : Text
evaluator_prompt =
    codes
      "You judge whether the passages below are sufficient to answer the query. Reply with exactly one word: SUFFICIENT or INSUFFICIENT."

-- The pipeline: its limits, and its collaborators at a request.
pub record Pipeline : Type 1 where
  pub Embedding : Type 0
  pub is_space : ℕ → Bool
  pub upper : Text → Text
  pub generate : List ChatMessage → Outcome ProviderResult
  pub embed_one : Text → Outcome Embedding
  pub hybrid_search : Text → Embedding → (top_k : ℕ) → Outcome (List RetrievedChunk)
  pub rerank : RerankRequest → Reranked
  pub top_k_candidates : ℕ
  pub top_n : ℕ
  pub min_reranked_results : ℕ

abbrev pub ranked_chunk : RetrievedChunk → ℤ → RankedChunk
ranked_chunk c rank = record {
  rank = rank;
  document_id = c.document_id;
  chunk_id = c.chunk_id;
  text = c.text;
}

abbrev pub text_of : RetrievedChunk → Text
text_of c = c.text

-- `RankedChunk(chunk, i + 1) for i, chunk in enumerate(...)`
abbrev pub in_store_order : (rank : ℕ) → List RetrievedChunk → List RankedChunk
in_store_order rank [] = []
in_store_order rank (c ∷ cs) = ranked_chunk c (pos rank) ∷ in_store_order (suc rank) cs

-- `sorted(ranked, key=rank)`
unfoldable pub insert_document : RankedDocument → List RankedDocument → List RankedDocument
insert_document d [] = d ∷ []
insert_document d (e ∷ es) =
    let rest = e ∷ insert_document d es in if leb_ℤ d.rank e.rank then d ∷ e ∷ es else rest

unfoldable pub sort_documents : List RankedDocument → List RankedDocument
unfolding insert_document
sort_documents [] = []
sort_documents (d ∷ ds) = insert_document d (sort_documents ds)

-- `candidates[index]`: a negative index counts from the end.
abbrev pub candidate_at : List RetrievedChunk → ℤ → Option RetrievedChunk
candidate_at cs (pos n) = get_elem? cs n
candidate_at cs (negsuc n) = if ltb n (length cs) then get_elem? cs (length cs - suc n) else none

-- An outer `none` is an `IndexError`.
abbrev pub put_chunk :
    ℤ → Option RetrievedChunk → Option (List RankedChunk) → Option (List RankedChunk)
put_chunk rank (some c) (some cs) = some (ranked_chunk c rank ∷ cs)
put_chunk rank (some c) none = none
put_chunk rank none cs = none

unfoldable pub pick_chunks : List RetrievedChunk → List RankedDocument → Option (List RankedChunk)
pick_chunks cs [] = some []
pick_chunks cs (d ∷ ds) = put_chunk d.rank (candidate_at cs d.index) (pick_chunks cs ds)

unfoldable pub join_passages : List RankedChunk → Text
join_passages [] = []
join_passages (c ∷ []) = c.text
join_passages (c ∷ d ∷ cs) = c.text ++ (10 ∷ 10 ∷ join_passages (d ∷ cs))

abbrev pub prompts : (instructions content : Text) → List ChatMessage
prompts instructions content =
    record { role = system; content = instructions }
    ∷ record { role = user; content = content }
    ∷ []

-- What a stage gives, or the exception that leaves `retrieve`.
infixl 1 ◌>>=◌
abbrev pub ◌>>=◌ : {A B : Type 0} → Outcome A → (A → Outcome B) → Outcome B
returned a >>= next = next a
raised e >>= next = raised e

-- The exception of a subscript out of range.
abbrev pub index_error : Failure
index_error = other_error 0

abbrev pub or_index_error : {A : Type 0} → Option A → Outcome A
or_index_error none = raised index_error
or_index_error (some a) = returned a

module _ (p : Pipeline) where
  abbrev pub rewritten_from : (query : Text) → Outcome ProviderResult → Text
  rewritten_from query (raised e) = query
  rewritten_from query (returned r) = non_empty_or (strip p.is_space r.content) query

  -- `_rewrite`
  unfoldable pub rewrite : (query : Text) → Text
  unfolding rewrite_prompt
  rewrite query = rewritten_from query (p.generate (prompts rewrite_prompt query))

  -- The `try` of `_rerank`: the chunks, and whether they are in the store's order.
  abbrev pub of_reranked :
      List RetrievedChunk → (top_n : ℕ) → Reranked → Outcome (List RankedChunk × Bool)
  of_reranked cs top_n (ranked ds) =
      or_index_error (pick_chunks cs (sort_documents ds)) >>= λ chunks. returned (chunks, false)
  of_reranked cs top_n (refused (unnormalized n)) = raised (other_error n)
  of_reranked cs top_n (refused (transient code)) =
      returned (in_store_order 1 (take top_n cs), true)
  of_reranked cs top_n (refused (terminal code)) = returned (in_store_order 1 (take top_n cs), true)
  of_reranked cs top_n (refused plain_error) = returned (in_store_order 1 (take top_n cs), true)

  -- `_rerank`
  unfoldable pub rerank_candidates :
      (query : Text) → List RetrievedChunk → (top_n : ℕ) → Outcome (List RankedChunk × Bool)
  unfolding pick_chunks sort_documents
  rerank_candidates query cs top_n =
      of_reranked cs top_n
        (p.rerank (record { query = query; documents = map text_of cs; top_n = some (pos top_n) }))

  abbrev pub verdict_from : Outcome ProviderResult → Option Text
  verdict_from (raised e) = none
  verdict_from (returned r) = some_unless_empty (p.upper (strip p.is_space r.content))

  -- `_evaluate`
  unfoldable pub evaluate : (query : Text) → List RankedChunk → Option Text
  unfolding evaluator_prompt join_passages
  evaluate query chunks = verdict_from (
      p.generate (
        prompts evaluator_prompt (
          codes "Query: "
          ++ (query ++ (10 ∷ 10 ∷ (codes "Passages:" ++ (10 ∷ join_passages chunks)))))))

  abbrev pub nothing_found : (query rewritten : Text) → PipelineResult
  nothing_found query rewritten = record {
    query = query;
    rewritten_query = rewritten;
    chunks = [];
    fallback_triggered = false;
    evaluator_triggered = false;
    evaluator_verdict = none;
  }

  -- The result, by the test of the evaluator.
  abbrev pub judged :
      (query rewritten : Text) → List RankedChunk → (fallback triggered : Bool) → PipelineResult
  judged query rewritten chunks fallback triggered = record {
    query = query;
    rewritten_query = rewritten;
    chunks = chunks;
    fallback_triggered = fallback;
    evaluator_triggered = triggered;
    evaluator_verdict = if triggered then evaluate rewritten chunks else none;
  }

  -- `retrieve` behind the search.
  abbrev pub with_candidates :
      (query rewritten : Text) → (top_n : ℕ) → List RetrievedChunk → Outcome PipelineResult
  with_candidates query rewritten top_n [] = returned (nothing_found query rewritten)
  with_candidates query rewritten top_n (c ∷ cs) = do
    (chunks, fallback) ← rerank_candidates rewritten (c ∷ cs) top_n
    returned (judged query rewritten chunks fallback (ltb (length chunks) p.min_reranked_results))

  abbrev pub effective_top_n : Option ℕ → ℕ
  effective_top_n none = p.top_n
  effective_top_n (some n) = n

  unfoldable pub retrieve : (query : Text) → (top_n : Option ℕ) → Outcome PipelineResult
  unfolding rewrite rerank_candidates evaluate
  retrieve query top_n = do
    embedding ← p.embed_one (rewrite query)
    candidates ← p.hybrid_search (rewrite query) embedding p.top_k_candidates
    with_candidates query (rewrite query) (effective_top_n top_n) candidates
