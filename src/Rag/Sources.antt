-- ===== src/Rag/Sources.antt =====
-- What `augment` builds passes the validation in front of the prompt, whole or cut at the end.
use mathlib.Core.Path.{subst}
use llm_chat_platform.Base.{
  ℕ, suc, ◌≡◌, ◌≢◌, inl, inr, refl, Bool-cases, All-append_left, ap, Bool, true, List, [], ◌∷◌,
  ◌++◌, map, some, Text, text_eq, text_eq_iff, arith, All, sym, ◌∙◌,
}
use llm_chat_platform.Base.Int.{pos, leb_ℤ, ◌≤ℤ◌}
use llm_chat_platform.Json.{Value, items, items_of}
use llm_chat_platform.Prompt.{citation, is_source, all_sources, validated_sources}
use llm_chat_platform.Rag.{
  RankedChunk, RagSource, Augmentor, Retrieval, source_dict, rag_metadata, augment, sort_by_rank,
  insert_rank,
}
use llm_chat_platform.Rag.Augment.{StandsFor, IsDrawn, augment-IsAugmented}

-- The sources carry the citations from S(i + 1) on, without a gap.
abbrev pub Cited : ℕ → List RagSource → Type 0
Cited i [] = Unit
Cited i (s ∷ ss) = (s.citation ≡ citation (suc i)) × Cited (suc i) ss

pub Cited-prefix : (i : ℕ) (xs ys : List RagSource) → Cited i (xs ++ ys) → Cited i xs
Cited-prefix i [] ys h = tt
Cited-prefix i (x ∷ xs) ys (c, h) = (c, Cited-prefix (suc i) xs ys h)

pub items-items_of : (vs : List Value) → items (items_of vs) ≡ vs
items-items_of [] = refl
items-items_of (v ∷ vs) = ap (λ r. v ∷ r) (items-items_of vs)

module _ (is_uuid : Text → Bool) where
  abbrev pub IsSoundSource : RagSource → Type 0
  IsSoundSource s = (is_uuid s.document_id ≡ true) × (is_uuid s.chunk_id ≡ true) × (pos 1 ≤ℤ s.rank)

  abbrev pub IsSoundChunk : RankedChunk → Type 0
  IsSoundChunk c = (is_uuid c.document_id ≡ true) × (is_uuid c.chunk_id ≡ true) × (pos 1 ≤ℤ c.rank)

  is_source-source_dict :
      (i : ℕ) (s : RagSource)
      → s.citation ≡ citation i
      → IsSoundSource s
      → is_source is_uuid i (source_dict s) ≡ true
  is_source-source_dict i s c (d, k, r) =
      let same : text_eq s.citation (citation i) ≡ true = (text_eq_iff _ _).1 c in
      let rank : leb_ℤ (pos 1) s.rank ≡ true = ground arith in rw (same, d, k, rank) refl

  all_sources-map :
      (i : ℕ) (ss : List RagSource)
      → Cited i ss
      → All IsSoundSource ss
      → all_sources is_uuid (suc i) (map source_dict ss) ≡ true
  all_sources-map i [] c h = refl
  all_sources-map i (s ∷ ss) (c, cs) (h, hs) =
      rw (is_source-source_dict (suc i) s c h) (all_sources-map (suc i) ss cs hs)

  pub validated_sources-rag_metadata :
      (ss : List RagSource)
      → ss ≢ []
      → Cited 0 ss
      → All IsSoundSource ss
      → validated_sources is_uuid (rag_metadata ss) ≡ some (map source_dict ss)
  unfolding validated_sources rag_metadata
  validated_sources-rag_metadata [] ne c h = absurd (ne refl)
  validated_sources-rag_metadata (s ∷ ss) ne (c, cs) (h, hs) =
      rw
        (
          items-items_of (map source_dict ss),
          is_source-source_dict 1 s c h,
          all_sources-map 1 ss cs hs,
        )
        refl

  StandsFor-Sound :
      (limit room number : ℕ) (c : RankedChunk) (s : RagSource)
      → StandsFor limit room number c s
      → IsSoundChunk c
      → IsSoundSource s
  StandsFor-Sound limit room number c s h (d, k, r) = (
    ap is_uuid h.same_document ∙ d,
    ap is_uuid h.same_chunk ∙ k,
    subst (λ x. pos 1 ≤ℤ x) (sym h.same_rank) r,
  )

  drawn-Sound :
      (a : Augmentor) {i room : ℕ} {cs : List RankedChunk} {ss : List RagSource}
      → IsDrawn a i room cs ss
      → All IsSoundChunk cs
      → All IsSoundSource ss
  drawn-Sound a IsDrawn.none_left h = tt
  drawn-Sound a (IsDrawn.full cs why) h = tt
  drawn-Sound a (IsDrawn.skipped c why d) (_, h) = drawn-Sound a d h
  drawn-Sound a (IsDrawn.taken c s one d) (hc, h) =
      (StandsFor-Sound _ _ _ c s one hc, drawn-Sound a d h)

  insert_rank-Sound :
      (c : RankedChunk) (cs : List RankedChunk)
      → IsSoundChunk c
      → All IsSoundChunk cs
      → All IsSoundChunk (insert_rank c cs)
  unfolding insert_rank
  insert_rank-Sound c [] hc h = (hc, tt)
  insert_rank-Sound c (d ∷ ds) hc (hd, h) = elim (Bool-cases (leb_ℤ c.rank d.rank)) [
    | inl le ↦ rw le (hc, (hd, h))
    | inr gt ↦ rw gt (hd, insert_rank-Sound c ds hc h)
  ]

  sort_by_rank-Sound :
      (cs : List RankedChunk) → All IsSoundChunk cs → All IsSoundChunk (sort_by_rank cs)
  unfolding sort_by_rank
  sort_by_rank-Sound [] h = tt
  sort_by_rank-Sound (c ∷ cs) (hc, h) =
      insert_rank-Sound c (sort_by_rank cs) hc (sort_by_rank-Sound cs h)

drawn-Cited :
    (a : Augmentor) {i room : ℕ} {cs : List RankedChunk} {ss : List RagSource}
    → IsDrawn a i room cs ss
    → Cited i ss
unfolding citation
drawn-Cited a IsDrawn.none_left = tt
drawn-Cited a (IsDrawn.full cs why) = tt
drawn-Cited a (IsDrawn.skipped c why d) = drawn-Cited a d
drawn-Cited a (IsDrawn.taken c s one d) = (one.cited, drawn-Cited a d)

-- If every chunk has UUIDs that parse and a rank of one or more, then any sources that `augment`
-- returns pass the validation unchanged: all of them, and also what is left when sources are
-- dropped from the end, as long as one is left.
pub validated_sources-augment :
    (is_uuid : Text → Bool) (a : Augmentor) (cs : List RankedChunk) (kept dropped : List RagSource)
    → All (IsSoundChunk is_uuid) cs
    → (augment a (Retrieval.chunks cs)).sources ≡ kept ++ dropped
    → kept ≢ []
    → validated_sources is_uuid (rag_metadata kept) ≡ some (map source_dict kept)
unfolding augment
validated_sources-augment is_uuid a cs kept dropped h split ne =
    let drawn = (augment-IsAugmented a cs).drawn in
    let sound = sort_by_rank-Sound is_uuid cs h in
    validated_sources-rag_metadata is_uuid kept ne
      (Cited-prefix 0 kept dropped (subst (Cited 0) split (drawn-Cited a drawn)))
      (All-append_left (IsSoundSource is_uuid) kept dropped
        (subst (All (IsSoundSource is_uuid)) split (drawn-Sound is_uuid a drawn sound)))
