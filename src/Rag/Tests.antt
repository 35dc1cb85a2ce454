-- ===== src/Rag/Tests.antt =====
-- A run of the augmentor, and its theorems at concrete chunks.
use llm_chat_platform.Base.{
  ◌≡◌, refl, true, false, List, [], ◌∷◌, map, some, Text, codes, length, ◌==◌, Bool, arith,
}
use llm_chat_platform.Base.Int.{pos}
use llm_chat_platform.Prompt.{validated_sources}
use llm_chat_platform.Rag.{
  RankedChunk, RagSource, Augmentor, chunks, augment, retrieved, rag_metadata, source_dict,
}
use llm_chat_platform.Rag.Augment.{IsAugmented, augment-IsAugmented}
use llm_chat_platform.Rag.Sources.{validated_sources-augment}

-- A stand-in for the standard library's parser: the length of the canonical form.
abbrev has_uuid_length : Text → Bool
has_uuid_length t = length t == 36

abbrev doc : Text
doc = codes "7d444840-9dc0-11d1-b245-5ffdce74fad2"

abbrev found : List RankedChunk
found =
    record { rank = pos 2; document_id = doc; chunk_id = doc; text = codes "second text" }
    ∷ record { rank = pos 1; document_id = doc; chunk_id = doc; text = codes "first" }
    ∷ record { rank = pos 3; document_id = doc; chunk_id = doc; text = codes "third" }
    ∷ []

abbrev limits : Augmentor
limits = record { max_sources = 3; max_source_chars = 8; max_context_chars = 11 }

abbrev s1 : RagSource
s1 = record {
  citation = codes "S1";
  document_id = doc;
  chunk_id = doc;
  rank = pos 1;
  content = codes "first";
  truncated = false;
}

abbrev s2 : RagSource
s2 = record {
  citation = codes "S2";
  document_id = doc;
  chunk_id = doc;
  rank = pos 2;
  content = codes "second";
  truncated = true;
}

augment_found :
    augment limits (chunks found) ≡ record { sources = s1 ∷ s2 ∷ []; outcome = some retrieved }
unfolding augment llm_chat_platform.Prompt.citation
augment_found = refl

augment-IsAugmented_example : IsAugmented limits found (augment limits (chunks found))
augment-IsAugmented_example = augment-IsAugmented limits found

-- What is left when the second source is dropped from the end.
validated_sources-augment_example :
    validated_sources has_uuid_length (rag_metadata (s1 ∷ [])) ≡ some (map source_dict (s1 ∷ []))
unfolding augment llm_chat_platform.Prompt.citation
validated_sources-augment_example =
    validated_sources-augment has_uuid_length limits found (s1 ∷ []) (s2 ∷ []) (ground arith) refl
      (λ e. cc e)
