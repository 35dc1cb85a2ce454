-- ===== src/Retrieval/Picked.antt =====
-- The candidates that the chunks of a result stand for.
use llm_chat_platform.Base.{
  ℕ, zero, suc, ◌<◌, ◌≡◌, refl, true, List, [], ◌∷◌, some, length, get_elem?, arith,
}
use llm_chat_platform.Base.Int.{pos, leb_ℤ}
use llm_chat_platform.Rag.{RankedChunk}
use llm_chat_platform.Rerank.{RankedDocument}
use llm_chat_platform.Rerank.Normal.{InOrder}
use llm_chat_platform.Retrieval.{
  RetrievedChunk, ranked_chunk, in_store_order, insert_document, sort_documents, pick_chunks,
}

-- Documents that are ranked in order are sorted.
insert_document-InOrder :
    (size rank : ℕ) (d : RankedDocument) (ds : List RankedDocument)
    → d.rank ≡ pos rank
    → InOrder size (suc rank) ds
    → insert_document d ds ≡ d ∷ ds
unfolding insert_document
insert_document-InOrder size rank d [] at h = refl
insert_document-InOrder size rank d (e ∷ es) at (next, i, h) =
    let before : leb_ℤ (pos rank) (pos (suc rank)) ≡ true = ground arith in
    let sorted : leb_ℤ d.rank e.rank ≡ true = rw (at, next) before in rw sorted refl

pub sort_documents-InOrder :
    (size rank : ℕ) (ds : List RankedDocument) → InOrder size rank ds → sort_documents ds ≡ ds
unfolding sort_documents
sort_documents-InOrder size rank [] h = refl
sort_documents-InOrder size rank (d ∷ ds) (at, i, h) =
    rw (sort_documents-InOrder size (suc rank) ds h) (insert_document-InOrder size rank d ds at h)

-- A chunk of the result that stands at a rank for a candidate.
pub record IsRanked (c : RetrievedChunk) (rank : ℕ) (r : RankedChunk) : Type 0 where
  pub at : r.rank ≡ pos rank
  pub document : r.document_id ≡ c.document_id
  pub chunk : r.chunk_id ≡ c.chunk_id
  pub content : r.text ≡ c.text

-- The chunks stand for the candidates at the indices of the documents, ranked from `rank` on.
pub data IsPicked (cs : List RetrievedChunk)
    : (rank : ℕ) → List RankedDocument → List RankedChunk → Type 0 where
  none_picked : {rank : ℕ} → IsPicked cs rank [] []
  picked :
      {rank : ℕ} {ds : List RankedDocument} {chunks : List RankedChunk} (d : RankedDocument) (n : ℕ)
      (c : RetrievedChunk) (r : RankedChunk)
      → d.index ≡ pos n
      → get_elem? cs n ≡ some c
      → IsRanked c rank r
      → IsPicked cs (suc rank) ds chunks
      → IsPicked cs rank (d ∷ ds) (r ∷ chunks)

-- The chunks stand for the candidates in their order.
pub data IsListed : (rank : ℕ) → List RetrievedChunk → List RankedChunk → Type 0 where
  none_listed : {rank : ℕ} → IsListed rank [] []
  listed :
      {rank : ℕ} {cs : List RetrievedChunk} {chunks : List RankedChunk} (c : RetrievedChunk)
      (r : RankedChunk)
      → IsRanked c rank r
      → IsListed (suc rank) cs chunks
      → IsListed rank (c ∷ cs) (r ∷ chunks)

get_elem?-some :
    (cs : List RetrievedChunk) (n : ℕ)
    → n < length cs
    → (c : RetrievedChunk) × (get_elem? cs n ≡ some c)
get_elem?-some [] n h = absurd (omega arith)
get_elem?-some (c ∷ cs) zero h = (c, refl)
get_elem?-some (c ∷ cs) (suc n) h = get_elem?-some cs n (omega arith)

pub pick_chunks-IsPicked :
    (cs : List RetrievedChunk) (rank : ℕ) (ds : List RankedDocument)
    → InOrder (length cs) rank ds
    → (chunks : List RankedChunk) × (pick_chunks cs ds ≡ some chunks) × IsPicked cs rank ds chunks
unfolding pick_chunks
pick_chunks-IsPicked cs rank [] h = ([], refl, none_picked)
pick_chunks-IsPicked cs rank (d ∷ ds) (at, (n, index, small), h) =
    let (c, elem) = get_elem?-some cs n small in
    let (chunks, eq, rest) = pick_chunks-IsPicked cs (suc rank) ds h in
    let same : IsRanked c rank (ranked_chunk c d.rank) = record {
      at = at;
      document = refl;
      chunk = refl;
      content = refl;
    } in
    (
      ranked_chunk c d.rank ∷ chunks,
      rw (index, elem, eq) refl,
      picked d n c (ranked_chunk c d.rank) index elem same rest,
    )

pub in_store_order-IsListed :
    (rank : ℕ) (cs : List RetrievedChunk) → IsListed rank cs (in_store_order rank cs)
in_store_order-IsListed rank [] = none_listed
in_store_order-IsListed rank (c ∷ cs) =
    listed c _ (record { at = refl; document = refl; chunk = refl; content = refl })
      (in_store_order-IsListed (suc rank) cs)
