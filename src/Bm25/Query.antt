-- ===== src/Bm25/Query.antt =====
-- The query of a ranking: `query_tokens` of app/core/domain/bm25_ranking.py.
use llm_chat_platform.Base.{
  ◌≡◌, refl, ℕ, zero, suc, ◌≤◌, true, false, ◌||◌, ◌⊎◌, inl, inr, List, [], ◌∷◌, Text, text_eq_iff,
  length, take, Bool-cases, All, Subseq, done, keep, skip, Subseq-nil, length-take, arith,
}
use llm_chat_platform.Bm25.{contains, unique_tokens, query_tokens, bm25_query_token_cap}

-- No token is repeated.
abbrev pub AreDistinct : List Text → Type 0
AreDistinct [] = Unit
AreDistinct (t ∷ ts) = (contains t ts ≡ false) × AreDistinct ts

unique_tokens-fresh :
    (seen ts : List Text) → All (λ t. contains t seen ≡ false) (unique_tokens seen ts)
unfolding unique_tokens
unique_tokens-fresh seen [] = tt
unique_tokens-fresh seen (t ∷ ts) = elim (Bool-cases (contains t seen)) [
  | inl old ↦ rw old (unique_tokens-fresh seen ts)
  | inr new ↦ rw new (new, weaken (unique_tokens (t ∷ seen) ts) (unique_tokens-fresh (t ∷ seen) ts))
]
  where
    weaken :
        (us : List Text)
        → All (λ u. contains u (t ∷ seen) ≡ false) us
        → All (λ u. contains u seen ≡ false) us
    weaken [] h = tt
    weaken (u ∷ us) h = (ground (arith, h.0), weaken us h.1)

contains-eq-false :
    (t : Text) (seen us : List Text)
    → All (λ u. contains u (t ∷ seen) ≡ false) us
    → contains t us ≡ false
contains-eq-false t seen [] h = refl
contains-eq-false t seen (u ∷ us) h =
    ground (arith, h.0, contains-eq-false t seen us h.1, text_eq_iff t u, text_eq_iff u t)

unique_tokens-AreDistinct : (seen ts : List Text) → AreDistinct (unique_tokens seen ts)
unfolding unique_tokens
unique_tokens-AreDistinct seen [] = tt
unique_tokens-AreDistinct seen (t ∷ ts) = elim (Bool-cases (contains t seen)) [
  | inl old ↦ rw old (unique_tokens-AreDistinct seen ts)
  | inr new ↦ rw new (
    contains-eq-false t seen _ (unique_tokens-fresh (t ∷ seen) ts),
    unique_tokens-AreDistinct (t ∷ seen) ts,
  )
]

unique_tokens-Subseq : (seen ts : List Text) → Subseq (unique_tokens seen ts) ts
unfolding unique_tokens
unique_tokens-Subseq seen [] = done
unique_tokens-Subseq seen (t ∷ ts) = elim (Bool-cases (contains t seen)) [
  | inl old ↦ rw old (skip t (unique_tokens-Subseq seen ts))
  | inr new ↦ rw new (keep t (unique_tokens-Subseq (t ∷ seen) ts))
]

unique_tokens_complete :
    (seen ts : List Text) (t : Text)
    → contains t ts ≡ true
    → (contains t seen || contains t (unique_tokens seen ts)) ≡ true
unfolding unique_tokens
unique_tokens_complete seen [] t h = absurd cc
unique_tokens_complete seen (u ∷ ts) t h = ground (
  arith,
  unique_tokens_complete seen ts t,
  unique_tokens_complete (u ∷ seen) ts t,
  text_eq_iff t u,
)

contains-take :
    (n : ℕ) (ts : List Text) (t : Text) → contains t ts ≡ false → contains t (take n ts) ≡ false
contains-take zero ts t h = refl
contains-take (suc n) [] t h = refl
contains-take (suc n) (u ∷ ts) t h = ground (arith, contains-take n ts t)

AreDistinct-take : (n : ℕ) (ts : List Text) → AreDistinct ts → AreDistinct (take n ts)
AreDistinct-take zero ts h = tt
AreDistinct-take (suc n) [] h = tt
AreDistinct-take (suc n) (t ∷ ts) h = (contains-take n ts t h.0, AreDistinct-take n ts h.1)

Subseq-take : (n : ℕ) {us ts : List Text} → Subseq us ts → Subseq (take n us) ts
Subseq-take zero {ts = ts} h = Subseq-nil ts
Subseq-take (suc n) done = done
Subseq-take (suc n) (keep t h) = keep t (Subseq-take n h)
Subseq-take (suc n) (skip t h) = skip t (Subseq-take (suc n) h)

contains-take_or_full :
    (n : ℕ) (ts : List Text) (t : Text)
    → contains t ts ≡ true
    → (contains t (take n ts) ≡ true) ⊎ (length (take n ts) ≡ n)
contains-take_or_full zero ts t h = inr refl
contains-take_or_full (suc n) [] t h = absurd cc
contains-take_or_full (suc n) (u ∷ ts) t h = ground (arith, contains-take_or_full n ts t)

-- What a query promises of the tokens of the text.
record IsQuery (tokens query : List Text) : Type 0 where
  pub bounded : length query ≤ bm25_query_token_cap
  pub distinct : AreDistinct query
  pub drawn : Subseq query tokens
  pub complete :
      (t : Text)
      → contains t tokens ≡ true
      → (contains t query ≡ true) ⊎ (length query ≡ bm25_query_token_cap)

-- The query of any text has at most 256 tokens, all different, in the order of the text's tokens,
-- and it holds each token of the text unless it has exactly 256.
query_tokens-IsQuery :
    (lexical_tokens : Text → List Text) (text : Text)
    → IsQuery (lexical_tokens text) (query_tokens lexical_tokens text)
unfolding query_tokens
query_tokens-IsQuery lexical_tokens text =
    let ts = lexical_tokens text in
    let all_of = unique_tokens [] ts in
    record {
      bounded = omega (arith, length-take bm25_query_token_cap all_of);
      distinct = AreDistinct-take bm25_query_token_cap all_of (unique_tokens-AreDistinct [] ts);
      drawn = Subseq-take bm25_query_token_cap (unique_tokens-Subseq [] ts);
      complete = λ t h.
          contains-take_or_full bm25_query_token_cap all_of t (unique_tokens_complete [] ts t h);
    }
