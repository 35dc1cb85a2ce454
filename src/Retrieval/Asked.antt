-- ===== src/Retrieval/Asked.antt =====
-- What the pipeline asks the provider: a rewriting of the query, and a verdict on the chunks.
use mathlib.Core.Path.{subst}
use llm_chat_platform.Base.{
  ◌≡◌, ◌≢◌, refl, sym, ◌∙◌, ◌++◌, codes, none, strip, some_unless_empty, non_empty_or, inl, inr,
  List, [], ◌∷◌, Option, some, Text,
}
use llm_chat_platform.Provider.{Failure, ProviderResult, returned, raised, Outcome-cases}
use llm_chat_platform.Chat.{ChatMessage, system, user}
use llm_chat_platform.Rag.{RankedChunk}
use llm_chat_platform.Retrieval.{
  Pipeline, evaluator_prompt, rewrite_prompt, join_passages, evaluate, rewrite,
}

-- What the provider is asked about a query, ahead of the search.
abbrev pub rewriting : (query : Text) → List ChatMessage
rewriting query =
    record { role = system; content = rewrite_prompt }
    ∷ record { role = user; content = query }
    ∷ []

-- The rewriting of a query: the provider's text without the white space around it, or, where the call
-- raised or gave only white space, the query as it is.
pub data IsRewritten (p : Pipeline) (query : Text) : Text → Type 0 where
  unanswered_query :
      (e : Failure) → p.generate (rewriting query) ≡ raised e → IsRewritten p query query
  wordless_query :
      (r : ProviderResult)
      → p.generate (rewriting query) ≡ returned r
      → strip p.is_space r.content ≡ []
      → IsRewritten p query query
  rephrased :
      (r : ProviderResult)
      → p.generate (rewriting query) ≡ returned r
      → strip p.is_space r.content ≢ []
      → IsRewritten p query (strip p.is_space r.content)

-- What the evaluator is asked about a query and its chunks.
abbrev pub evaluation : (query : Text) → List RankedChunk → List ChatMessage
evaluation query chunks =
    record { role = system; content = evaluator_prompt }
    ∷ record {
      role = user;
      content =
          codes "Query: "
          ++ (query ++ (10 ∷ 10 ∷ (codes "Passages:" ++ (10 ∷ join_passages chunks))));
    }
    ∷ []

-- A verdict: the evaluator's word in capitals; none if its call raised or gave only white space.
pub data IsVerdict (p : Pipeline) (query : Text) (chunks : List RankedChunk)
    : Option Text → Type 0 where
  unanswered :
      (e : Failure)
      → p.generate (evaluation query chunks) ≡ raised e
      → IsVerdict p query chunks none
  wordless :
      (r : ProviderResult)
      → p.generate (evaluation query chunks) ≡ returned r
      → p.upper (strip p.is_space r.content) ≡ []
      → IsVerdict p query chunks none
  given :
      (r : ProviderResult)
      → p.generate (evaluation query chunks) ≡ returned r
      → p.upper (strip p.is_space r.content) ≢ []
      → IsVerdict p query chunks (some (p.upper (strip p.is_space r.content)))

module _ (p : Pipeline) where
  text-IsRewritten :
      (query : Text) (r : ProviderResult) (text : Text)
      → p.generate (rewriting query) ≡ returned r
      → strip p.is_space r.content ≡ text
      → IsRewritten p query (non_empty_or text query)
  text-IsRewritten query r [] answer e = wordless_query r answer e
  text-IsRewritten query r (x ∷ text) answer e =
      subst (λ w. IsRewritten p query w) e (rephrased r answer (λ no. cc (e, no)))

  pub rewrite-IsRewritten : (query : Text) → IsRewritten p query (rewrite p query)
  unfolding rewrite
  rewrite-IsRewritten query = elim (Outcome-cases (p.generate (rewriting query))) [
    | inr (e, failed) ↦ rw failed (unanswered_query e failed)
    | inl (r, answer) ↦ rw answer (text-IsRewritten query r _ answer refl)
  ]

  word-IsVerdict :
      (query : Text) (chunks : List RankedChunk) (r : ProviderResult) (word : Text)
      → p.generate (evaluation query chunks) ≡ returned r
      → p.upper (strip p.is_space r.content) ≡ word
      → IsVerdict p query chunks (some_unless_empty word)
  word-IsVerdict query chunks r [] answer e = wordless r answer e
  word-IsVerdict query chunks r (x ∷ word) answer e =
      subst (λ w. IsVerdict p query chunks (some w)) e
        (given r answer (λ no. cons-not-nil (sym e ∙ no)))
    where
      cons-not-nil : ¬ (x ∷ word ≡ [])
      cons-not-nil h = cc

  pub evaluate-IsVerdict :
      (query : Text) (chunks : List RankedChunk)
      → IsVerdict p query chunks (evaluate p query chunks)
  unfolding evaluate
  evaluate-IsVerdict query chunks = elim (Outcome-cases (p.generate (evaluation query chunks))) [
    | inr (e, failed) ↦ rw failed (unanswered e failed)
    | inl (r, answer) ↦ rw answer (word-IsVerdict query chunks r _ answer refl)
  ]
