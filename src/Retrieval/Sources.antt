-- ===== src/Retrieval/Sources.antt =====
-- From the store to the prompt: the sources of a chat request and the candidates of its search.
use mathlib.Core.Path.{subst}
use llm_chat_platform.Base.{
  ℕ, zero, suc, ◌≡◌, ◌∙◌, inl, inr, Bool, Bool-cases, List, [], ◌∷◌, Option, some, Text, get_elem?,
  length, take, All, All-take, Member, here, there, StartsWith,
}
use llm_chat_platform.Base.Int.{leb_ℤ}
use llm_chat_platform.Provider.{Outcome, returned, raised, timed_out, other_error, provider_error}
use llm_chat_platform.Rag.{
  RankedChunk, RagSource, Retrieval, Augmentor, chunks, timeout, error, insert_rank, sort_by_rank,
  augment,
}
use llm_chat_platform.Rag.Augment.{IsDrawn, none_left, full, skipped, taken, augment-IsAugmented}
use llm_chat_platform.Rerank.{RerankRequest, RankedDocument, Reranked}
use llm_chat_platform.Rerank.Normal.{IsNormal}
use llm_chat_platform.Retrieval.{RetrievedChunk, PipelineResult, Pipeline, rewrite, retrieve}
use llm_chat_platform.Retrieval.Picked.{
  IsPicked, none_picked, picked, IsListed, none_listed, listed,
}
use llm_chat_platform.Retrieval.Ranked.{
  IsOrderOf, by_reranker, by_store, IsRetrieved, nothing, found, retrieve-IsRetrieved,
}

-- What the augmentor sees of the pipeline, under `wait_for`.
abbrev pub retrieval_of : Outcome PipelineResult → Retrieval
retrieval_of (returned r) = chunks r.chunks
retrieval_of (raised timed_out) = timeout
retrieval_of (raised (other_error n)) = error
retrieval_of (raised (provider_error e)) = error

-- A ranked chunk that stands for a candidate.
abbrev pub StandsFor : List RetrievedChunk → RankedChunk → Type 0
StandsFor cs r =
    (c : RetrievedChunk) × Member c cs
    × (r.document_id ≡ c.document_id)
    × (r.chunk_id ≡ c.chunk_id)
    × (r.text ≡ c.text)

-- A source that quotes a candidate, from its start.
abbrev pub Quotes : List RetrievedChunk → RagSource → Type 0
Quotes cs s =
    (c : RetrievedChunk) × Member c cs
    × (s.document_id ≡ c.document_id)
    × (s.chunk_id ≡ c.chunk_id)
    × StartsWith s.content c.text

get_elem?-Member :
    (cs : List RetrievedChunk) (n : ℕ) (c : RetrievedChunk) → get_elem? cs n ≡ some c → Member c cs
get_elem?-Member [] n c h = absurd cc
get_elem?-Member (d ∷ cs) zero c h = let e : d ≡ c = cc in subst (λ x. Member x (d ∷ cs)) e here
get_elem?-Member (d ∷ cs) (suc n) c h = there (get_elem?-Member cs n c h)

IsPicked-StandsFor :
    (cs : List RetrievedChunk) (rank : ℕ) (ds : List RankedDocument) (rs : List RankedChunk)
    → IsPicked cs rank ds rs
    → All (StandsFor cs) rs
IsPicked-StandsFor cs rank ds rs none_picked = tt
IsPicked-StandsFor cs rank ds rs (picked d n c r index elem one rest) = (
  (c, get_elem?-Member cs n c elem, one.document, one.chunk, one.content),
  IsPicked-StandsFor cs _ _ _ rest,
)

IsListed-StandsFor :
    (cs : List RetrievedChunk) (rank : ℕ) (ds : List RetrievedChunk) (rs : List RankedChunk)
    → All (λ d. Member d cs) ds
    → IsListed rank ds rs
    → All (StandsFor cs) rs
IsListed-StandsFor cs rank ds rs h none_listed = tt
IsListed-StandsFor cs rank ds rs h (listed c r one rest) =
    ((c, h.0, one.document, one.chunk, one.content), IsListed-StandsFor cs _ _ _ h.1 rest)

All-Member :
    (cs ds : List RetrievedChunk)
    → ((d : RetrievedChunk) → Member d ds → Member d cs)
    → All (λ d. Member d cs) ds
All-Member cs [] h = tt
All-Member cs (d ∷ ds) h = (h d here, All-Member cs ds (λ x m. h x (there m)))

IsOrderOf-StandsFor :
    (cs : List RetrievedChunk) (n : ℕ) (r : Reranked) (rs : List RankedChunk) (fallback : Bool)
    → IsOrderOf cs n r rs fallback
    → All (StandsFor cs) rs
IsOrderOf-StandsFor cs n r rs fallback (by_reranker ds _ drawn) =
    IsPicked-StandsFor cs 1 ds rs drawn
IsOrderOf-StandsFor cs n r rs fallback (by_store e _ drawn) =
    IsListed-StandsFor cs 1 (take n cs) rs
      (All-take (λ d. Member d cs) n cs (All-Member cs cs (λ d m. m))) drawn

-- The sort keeps what holds of every chunk.
insert_rank-All :
    (P : RankedChunk → Type 0) (c : RankedChunk) (rs : List RankedChunk)
    → P c
    → All P rs
    → All P (insert_rank c rs)
unfolding insert_rank
insert_rank-All P c [] hc h = (hc, tt)
insert_rank-All P c (r ∷ rs) hc h = elim (Bool-cases (leb_ℤ c.rank r.rank)) [
  | inl before ↦ rw before (hc, h)
  | inr after ↦ rw after (h.0, insert_rank-All P c rs hc h.1)
]

sort_by_rank-All :
    (P : RankedChunk → Type 0) (rs : List RankedChunk) → All P rs → All P (sort_by_rank rs)
unfolding sort_by_rank
sort_by_rank-All P [] h = tt
sort_by_rank-All P (r ∷ rs) h =
    insert_rank-All P r (sort_by_rank rs) h.0 (sort_by_rank-All P rs h.1)

IsDrawn-Quotes :
    (cs : List RetrievedChunk) (a : Augmentor) (i room : ℕ) (rs : List RankedChunk)
    (ss : List RagSource)
    → All (StandsFor cs) rs
    → IsDrawn a i room rs ss
    → All (Quotes cs) ss
IsDrawn-Quotes cs a i room rs ss h none_left = tt
IsDrawn-Quotes cs a i room rs ss h (full _ stop) = tt
IsDrawn-Quotes cs a i room rs ss h (skipped r why rest) = IsDrawn-Quotes cs a i room _ ss h.1 rest
IsDrawn-Quotes cs a i room rs ss h (taken r s one rest) =
    let (c, m, d, k, t) = h.0 in
    (
      (
        c,
        m,
        one.same_document ∙ d,
        one.same_chunk ∙ k,
        subst (λ x. StartsWith s.content x) t one.start,
      ),
      IsDrawn-Quotes cs a (suc i) _ _ _ h.1 rest,
    )

-- A source that quotes a chunk of the store's answer to the search of the request.
abbrev pub IsQuoted : (p : Pipeline) → (query : Text) → RagSource → Type 0
IsQuoted p query s =
    (v : p.Embedding) × (cs : List RetrievedChunk) × (p.embed_one (rewrite p query) ≡ returned v)
    × (p.hybrid_search (rewrite p query) v p.top_k_candidates ≡ returned cs)
    × Quotes cs s

All-map :
    (P Q : RagSource → Type 0)
    → ((s : RagSource) → P s → Q s)
    → (ss : List RagSource) → All P ss
    → All Q ss
All-map P Q f [] h = tt
All-map P Q f (s ∷ ss) h = (f s h.0, All-map P Q f ss h.1)

augment-Quotes :
    (a : Augmentor) (cs : List RetrievedChunk) (rs : List RankedChunk)
    → All (StandsFor cs) rs
    → All (Quotes cs) (augment a (chunks rs)).sources
augment-Quotes a cs rs h =
    IsDrawn-Quotes cs a 0 a.max_context_chars (sort_by_rank rs) _
      (sort_by_rank-All (StandsFor cs) rs h) (augment-IsAugmented a rs).drawn

IsRetrieved-IsQuoted :
    (a : Augmentor) (p : Pipeline) (query : Text) (n : ℕ) (o : Outcome PipelineResult)
    → IsRetrieved p query n o
    → All (IsQuoted p query) (augment a (retrieval_of o)).sources
unfolding augment
IsRetrieved-IsQuoted a p query n (raised timed_out) h = tt
IsRetrieved-IsQuoted a p query n (raised (other_error _)) h = tt
IsRetrieved-IsQuoted a p query n (raised (provider_error _)) h = tt
IsRetrieved-IsQuoted a p query n (returned _) (nothing v r _ _ _ rs _) = rw (rs.0) tt
IsRetrieved-IsQuoted a p query n (returned _) (found v c cs r embedded searched _ order _) =
    All-map (Quotes (c ∷ cs)) (IsQuoted p query) (λ s q. (v, c ∷ cs, embedded, searched, q)) _
      (augment-Quotes a (c ∷ cs) r.chunks
        (IsOrderOf-StandsFor (c ∷ cs) n _ r.chunks r.fallback_triggered order))

-- Over a reranker whose answers are normal, whatever the other collaborators do, each source that a
-- chat request is given has the identifiers of a chunk that the store gave for the search of that
-- very request, and its content is a start of that chunk's text.
pub augment-retrieve :
    (a : Augmentor) (p : Pipeline) (query : Text) (top_n : Option ℕ)
    → ((r : RerankRequest) → IsNormal (length r.documents) (p.rerank r))
    → All (IsQuoted p query) (augment a (retrieval_of (retrieve p query top_n))).sources
augment-retrieve a p query top_n contract =
    IsRetrieved-IsQuoted a p query _ _ (retrieve-IsRetrieved p query top_n contract).1
