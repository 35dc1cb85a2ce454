-- ===== src/Rag/Augment.antt =====
-- The bounds of the documental context, and its order.
use mathlib.Core.List.{Perm}
use mathlib.Core.List.Perm
use llm_chat_platform.Base.{
  ℕ, suc, ◌+◌, ◌-◌, ◌≤◌, ◌<◌, min, ◌≡◌, ◌≢◌, refl, ap, ◌⊎◌, inl, inr, ◌↔◌, true, false, ◌||◌, ◌++◌,
  codes, ltb, ltb→ge, ge→ltb, take-eq_of_le, Option, some, List, [], ◌∷◌, Text, length, take,
  length-take, is_nil, leb, arith, Bool-cases, if◌then◌else◌, StartsWith, StartsWith-take,
}
use llm_chat_platform.Base.Int.{leb_ℤ, ◌≤ℤ◌}
use llm_chat_platform.Json.{decimal}
use llm_chat_platform.Prompt.{citation}
use llm_chat_platform.Rag.{
  RankedChunk, RagSource, Augmentor, insert_rank, sort_by_rank, source_of, gather, augment,
  RetrievalOutcome, Retrieval, RagGenerationContext,
}

abbrev pub source_chars : List RagSource → ℕ
source_chars [] = 0
source_chars (s ∷ ss) = length s.content + source_chars ss

-- A source that stands for a chunk, as the one of a citation's number: it names the chunk, has as much
-- of its text as both limits allow, from the start, and is flagged exactly if that is not all of it.
pub record StandsFor (limit room number : ℕ) (c : RankedChunk) (s : RagSource) : Type 0 where
  pub cited : s.citation ≡ codes "S" ++ decimal number
  pub same_document : s.document_id ≡ c.document_id
  pub same_chunk : s.chunk_id ≡ c.chunk_id
  pub same_rank : s.rank ≡ c.rank
  pub start : StartsWith s.content c.text
  pub size : length s.content ≡ min (length c.text) (min limit room)
  pub some_text : s.content ≢ []
  pub flagged : (s.truncated ≡ false) ↔ (s.content ≡ c.text)

-- The sources of chunks in order, when `i` sources are retained and `room` characters remain: each
-- chunk has its source, unless it is empty, or there is no room for it.
pub data IsDrawn (a : Augmentor) : (i room : ℕ) → List RankedChunk → List RagSource → Type 0 where
  none_left : {i room : ℕ} → IsDrawn a i room [] []
  full :
      {i room : ℕ} (cs : List RankedChunk)
      → (a.max_sources ≤ i) ⊎ (room ≡ 0)
      → IsDrawn a i room cs []
  skipped :
      {i room : ℕ} {cs : List RankedChunk} {ss : List RagSource} (c : RankedChunk)
      → (c.text ≡ []) ⊎ (a.max_source_chars ≡ 0)
      → IsDrawn a i room cs ss
      → IsDrawn a i room (c ∷ cs) ss
  taken :
      {i room : ℕ} {cs : List RankedChunk} {ss : List RagSource} (c : RankedChunk) (s : RagSource)
      → StandsFor a.max_source_chars room (suc i) c s
      → IsDrawn a (suc i) (room - length s.content) cs ss
      → IsDrawn a i room (c ∷ cs) (s ∷ ss)

is_nil-false : (t : Text) → is_nil t ≡ false → t ≢ []
is_nil-false [] h e = cc
is_nil-false (x ∷ t) h e = cc

is_nil-true : (t : Text) → is_nil t ≡ true → t ≡ []
is_nil-true [] h = refl
is_nil-true (x ∷ t) h = absurd cc

-- A start that is not shorter is the whole.
cut_iff : (n : ℕ) (t : Text) → (ltb (length (take n t)) (length t) ≡ false) ↔ (take n t ≡ t)
cut_iff n t = (
  λ h. take-eq_of_le n t (omega (arith, ltb→ge _ _ h, length-take n t)),
  λ e. ge→ltb _ _ (omega (arith, ap length e)),
)

source_of-StandsFor :
    (limit room number : ℕ) (c : RankedChunk)
    → is_nil (take (min limit room) c.text) ≡ false
    → StandsFor limit room number c (source_of number c (take (min limit room) c.text))
unfolding citation
source_of-StandsFor limit room number c some_left = record {
  cited = refl;
  same_document = refl;
  same_chunk = refl;
  same_rank = refl;
  start = StartsWith-take (min limit room) c.text;
  size = omega (arith, length-take (min limit room) c.text);
  some_text = is_nil-false _ some_left;
  flagged = cut_iff (min limit room) c.text;
}

-- Nothing of a text is allowed only where there is no text or a limit is 0.
nothing_allowed :
    (limit room : ℕ) (t : Text) → 0 < room → take (min limit room) t ≡ [] → (t ≡ []) ⊎ (limit ≡ 0)
nothing_allowed limit room [] h e = inl refl
nothing_allowed limit room (x ∷ t) h e =
    inr (omega (arith, ap length e, length-take (min limit room) (x ∷ t)))

gather-IsDrawn :
    (a : Augmentor) (cs : List RankedChunk) (n r : ℕ) → IsDrawn a n r cs (gather a cs n r)
unfolding gather
gather-IsDrawn a [] n r = none_left
gather-IsDrawn a (c ∷ cs) n r =
    let content = take (min a.max_source_chars r) c.text in
    elim (Bool-cases (leb a.max_sources n || leb r 0)) [
      | inl stop ↦ rw stop (full (c ∷ cs) (ground (arith, stop)))
      | inr go ↦ elim (Bool-cases (is_nil c.text)) [
        | inl blank ↦
            rw (go, blank) (skipped c (inl (is_nil-true c.text blank)) (gather-IsDrawn a cs n r))
        | inr text ↦ elim (Bool-cases (is_nil content)) [
          | inl cut ↦
              rw (go, text, cut)
                (skipped c
                  (nothing_allowed a.max_source_chars r c.text (ground (arith, go))
                    (is_nil-true content cut))
                  (gather-IsDrawn a cs n r))
          | inr some_left ↦
              rw (go, text, some_left)
                (taken c _ (source_of-StandsFor a.max_source_chars r (suc n) c some_left)
                  (gather-IsDrawn a cs (suc n) (r - length content)))
        ]
      ]
    ]

gather-bounds :
    (a : Augmentor) (cs : List RankedChunk) (n r : ℕ)
    → n ≤ a.max_sources
    → (length (gather a cs n r) + n ≤ a.max_sources) × (source_chars (gather a cs n r) ≤ r)
unfolding gather
gather-bounds a [] n r h = omega arith
gather-bounds a (c ∷ cs) n r h =
    let content = take (min a.max_source_chars r) c.text in
    elim (Bool-cases (leb a.max_sources n || leb r 0)) [
      | inl stop ↦ rw stop (omega arith)
      | inr go ↦ elim (Bool-cases (is_nil c.text)) [
        | inl blank ↦ rw (go, blank) (gather-bounds a cs n r h)
        | inr text ↦ elim (Bool-cases (is_nil content)) [
          | inl cut ↦ rw (go, text, cut) (gather-bounds a cs n r h)
          | inr some_left ↦
              let room : n < a.max_sources = ground (arith, go) in
              let (count, chars) = gather-bounds a cs (suc n) (r - length content) room in
              rw (go, text, some_left)
                (
                  omega (arith, count),
                  omega (arith, chars, length-take (min a.max_source_chars r) c.text),
                )
        ]
      ]
    ]

insert_rank-perm : (c : RankedChunk) (cs : List RankedChunk) → Perm (insert_rank c cs) (c ∷ cs)
unfolding insert_rank
insert_rank-perm c [] = Perm.refl (c ∷ [])
insert_rank-perm c (d ∷ ds) = elim (Bool-cases (leb_ℤ c.rank d.rank)) [
  | inl le ↦ rw le (Perm.refl (c ∷ d ∷ ds))
  | inr gt ↦ rw gt (Perm.trans (Perm.cons d (insert_rank-perm c ds)) (Perm.swap c d ds))
]

pub sort_by_rank-perm : (cs : List RankedChunk) → Perm (sort_by_rank cs) cs
unfolding sort_by_rank
sort_by_rank-perm [] = Perm.refl []
sort_by_rank-perm (c ∷ cs) =
    Perm.trans (insert_rank-perm c (sort_by_rank cs)) (Perm.cons c (sort_by_rank-perm cs))

-- No rank stands above the next one.
abbrev pub RankSorted : List RankedChunk → Type 0
RankSorted [] = Unit
RankSorted (c ∷ []) = Unit
RankSorted (c ∷ d ∷ ds) = (c.rank ≤ℤ d.rank) × RankSorted (d ∷ ds)

RankSorted-insert :
    (c : RankedChunk) (cs : List RankedChunk) → RankSorted cs → RankSorted (insert_rank c cs)
unfolding insert_rank
RankSorted-insert c [] h = tt
RankSorted-insert c (d ∷ []) h = ground arith
RankSorted-insert c (d ∷ e ∷ es) h = ground (arith, RankSorted-insert c (e ∷ es) h.1)

pub sort_by_rank-RankSorted : (cs : List RankedChunk) → RankSorted (sort_by_rank cs)
unfolding sort_by_rank
sort_by_rank-RankSorted [] = tt
sort_by_rank-RankSorted (c ∷ cs) = RankSorted-insert c _ (sort_by_rank-RankSorted cs)

-- What `augment` makes of the chunks that the pipeline delivers.
pub record IsAugmented (a : Augmentor) (cs : List RankedChunk) (ctx : RagGenerationContext)
    : Type 0 where
  pub perm : Perm (sort_by_rank cs) cs
  pub sorted : RankSorted (sort_by_rank cs)
  pub drawn : IsDrawn a 0 a.max_context_chars (sort_by_rank cs) ctx.sources
  pub count : length ctx.sources ≤ a.max_sources
  pub chars : source_chars ctx.sources ≤ a.max_context_chars
  pub outcome : (ctx.outcome ≡ some RetrievalOutcome.empty) ↔ (ctx.sources ≡ [])

outcome_iff :
    (ss : List RagSource)
    → (◌≡◌ {A = Option RetrievalOutcome}
        (some (if is_nil ss then RetrievalOutcome.empty else RetrievalOutcome.retrieved))
        (some RetrievalOutcome.empty))
      ↔ (ss ≡ [])
outcome_iff [] = (λ _. refl, λ _. refl)
outcome_iff (s ∷ ss) = (λ h. cc, λ h. cc)

-- The documental context is drawn from the chunks in the order of their ranks. Each chunk in turn has
-- its source, unless its text is empty or a source may have no character, until there are
-- `max_sources` sources or the characters are used up. A source is cited S1, S2, and so on, names its
-- chunk, has as much of the start of its text as `max_source_chars` and what remains of
-- `max_context_chars` allow, at least one character, and is flagged exactly if that is not all of it.
-- There are at most `max_sources` sources, together within `max_context_chars`; the outcome is `empty`
-- exactly if there is none.
pub augment-IsAugmented :
    (a : Augmentor) (cs : List RankedChunk) → IsAugmented a cs (augment a (Retrieval.chunks cs))
unfolding augment
augment-IsAugmented a cs =
    let (count, chars) = gather-bounds a (sort_by_rank cs) 0 a.max_context_chars (omega arith) in
    record {
      perm = sort_by_rank-perm cs;
      sorted = sort_by_rank-RankSorted cs;
      drawn = gather-IsDrawn a (sort_by_rank cs) 0 a.max_context_chars;
      count = omega (arith, count);
      chars = chars;
      outcome = outcome_iff (gather a (sort_by_rank cs) 0 a.max_context_chars);
    }
