-- ===== src/Rag.antt =====
-- Documental context for one chat request: app/core/domain/rag_generation.py. The retrieval
-- pipeline's answer is an argument. The limits are positive in settings.py, so natural numbers.
pub mod Augment
pub mod Sources
mod Tests
use llm_chat_platform.Base.{
  ℕ, zero, suc, ◌+◌, ◌-◌, min, Bool, true, false, ◌||◌, List, [], ◌∷◌, ◌++◌, map, Option, some,
  Text, length, take, is_nil, leb, ltb, if◌then◌else◌,
}
use llm_chat_platform.Base.Int.{ℤ, leb_ℤ}
use llm_chat_platform.Json.{Value, null, bool, int, str, list, dict, items_of, end, field}
use llm_chat_platform.Prompt.{rag_schema_version, citation}

-- A retrieved chunk with its rank; a UUID is the text that `str` gives.
pub record RankedChunk : Type 0 where
  pub rank : ℤ
  pub document_id : Text
  pub chunk_id : Text
  pub text : Text

pub record RagSource : Type 0 where
  pub citation : Text
  pub document_id : Text
  pub chunk_id : Text
  pub rank : ℤ
  pub content : Text
  pub truncated : Bool

abbrev pub source_dict : RagSource → Value
source_dict s = dict (
    field "citation" (str s.citation) (
      field "document_id" (str s.document_id) (
        field "chunk_id" (str s.chunk_id) (
          field "rank" (int s.rank)
            (field "truncated" (bool s.truncated) (field "content" (str s.content) end))))))

pub data RetrievalOutcome : Type 0 where
  skipped retrieved empty timed_out failed : RetrievalOutcome

pub record RagGenerationContext : Type 0 where
  pub sources : List RagSource
  pub outcome : Option RetrievalOutcome

-- `provider_metadata`; `null` is Python's `None`.
unfoldable pub rag_metadata : List RagSource → Value
unfolding rag_schema_version
rag_metadata [] = null
rag_metadata (s ∷ ss) = dict (
    field "rag"
      (dict (
        field "schema_version" (str rag_schema_version)
          (field "sources" (list (items_of (map source_dict (s ∷ ss)))) end)))
      end)

-- What awaiting the pipeline under `wait_for` gives.
pub data Retrieval : Type 0 where
  chunks : List RankedChunk → Retrieval
  timeout error : Retrieval

pub record Augmentor : Type 0 where
  pub max_sources : ℕ
  pub max_source_chars : ℕ
  pub max_context_chars : ℕ

-- `sorted(..., key=rank)`: stable, smallest rank first.
unfoldable pub insert_rank : RankedChunk → List RankedChunk → List RankedChunk
insert_rank c [] = c ∷ []
insert_rank c (d ∷ ds) = if leb_ℤ c.rank d.rank then c ∷ d ∷ ds else d ∷ insert_rank c ds

unfoldable pub sort_by_rank : List RankedChunk → List RankedChunk
unfolding insert_rank
sort_by_rank [] = []
sort_by_rank (c ∷ cs) = insert_rank c (sort_by_rank cs)

abbrev pub source_of : ℕ → RankedChunk → Text → RagSource
source_of index c content = record {
  citation = citation index;
  document_id = c.document_id;
  chunk_id = c.chunk_id;
  rank = c.rank;
  content = content;
  truncated = ltb (length content) (length c.text);
}

-- The loop of `augment`, with the number retained so far and the characters that remain.
unfoldable pub gather : Augmentor → List RankedChunk → (retained remaining : ℕ) → List RagSource
gather a [] retained remaining = []
gather a (c ∷ cs) retained remaining =
    let content = take (min a.max_source_chars remaining) c.text in
    let skip = gather a cs retained remaining in
    let keep =
      source_of (suc retained) c content
      ∷ gather a cs (suc retained) (remaining - length content) in
    if leb a.max_sources retained || leb remaining 0
    then []
    else if is_nil c.text
    then skip
    else if is_nil content
    then skip
    else keep

unfoldable pub augment : Augmentor → Retrieval → RagGenerationContext
unfolding gather sort_by_rank
augment a (chunks cs) =
    let retained = gather a (sort_by_rank cs) 0 a.max_context_chars in
    record { sources = retained; outcome = some (if is_nil retained then empty else retrieved) }
augment a timeout = record { sources = []; outcome = some timed_out }
augment a error = record { sources = []; outcome = some failed }
