-- ===== src/Rerank/Normal.antt =====
-- What the production cascade may answer.
use llm_chat_platform.Base.{
  suc, ◌<◌, ltb→lt, &&-eq-true, ℕ, ◌≡◌, refl, inl, inr, Bool, true, Bool-cases, List, [], ◌∷◌,
  Option, none, some, Text, length, is_nil, leb, ◌==◌, ◌||◌,
}
use llm_chat_platform.Base.Int.{ℤ, pos, negsuc}
use llm_chat_platform.Json.{Value}
use llm_chat_platform.Rerank.{
  of_client, is_index, RerankRequest, RankedDocument, RerankFailure, Reranked, Checked, Numbers,
  HttpAnswer, AwsAnswer, transient, terminal, plain_error, unnormalized, ranked, refused, passed,
  rejected, then_rerank, validate_request, number_from, all_indices, of_indices, of_body, of_answer,
  transport_failed, call_broke, response, gcp_rerank, client_error, botocore_error, other_failure,
  aws_response, contains_text, transient_codes, of_aws_answer, aws_rerank, after_primary, cascade,
}

-- An index of one of that many documents.
abbrev pub IsIndex : ℕ → ℤ → Type 0
IsIndex size i = (n : ℕ) × (i ≡ pos n) × (n < size)

-- Documents ranked from `rank` on, each by the index of a document.
abbrev pub InOrder : (size rank : ℕ) → List RankedDocument → Type 0
InOrder size rank [] = Unit
InOrder size rank (d ∷ ds) = (d.rank ≡ pos rank) × IsIndex size d.index × InOrder size (suc rank) ds

-- Documents ranked from 1 on, or a failure of the two classes that callers know.
pub data IsNormal (size : ℕ) : Reranked → Type 0 where
  in_order : (ds : List RankedDocument) → InOrder size 1 ds → IsNormal size (ranked ds)
  may_retry : (code : Option Text) → IsNormal size (refused (transient code))
  may_not_retry : (code : Option Text) → IsNormal size (refused (terminal code))

-- The same, or the exception that building the client of AWS raised.
pub data IsCascaded (size : ℕ) (build : Option ℕ) : Reranked → Type 0 where
  normalized : {r : Reranked} → IsNormal size r → IsCascaded size build r
  not_built : (n : ℕ) → build ≡ some n → IsCascaded size build (refused (unnormalized n))

is_index-IsIndex : (size : ℕ) (i : ℤ) → is_index size i ≡ true → IsIndex size i
is_index-IsIndex size (pos n) h = (n, refl, ltb→lt n size h)
is_index-IsIndex size (negsuc n) h = absurd cc

number_from-InOrder :
    (size rank : ℕ) (is : List ℤ)
    → all_indices size is ≡ true
    → InOrder size rank (number_from rank is)
number_from-InOrder size rank [] h = tt
number_from-InOrder size rank (i ∷ is) h =
    let (one, others) = &&-eq-true {a = is_index size i} h in
    (refl, is_index-IsIndex size i one, number_from-InOrder size (suc rank) is others)

-- The same, or any failure.
data IsAnswer (size : ℕ) : Reranked → Type 0 where
  normal : {r : Reranked} → IsNormal size r → IsAnswer size r
  failing : (e : RerankFailure) → IsAnswer size (refused e)

of_indices-IsNormal : (size : ℕ) (is : Option (List ℤ)) → IsNormal size (of_indices size is)
of_indices-IsNormal size none = may_not_retry none
of_indices-IsNormal size (some is) = elim (Bool-cases (all_indices size is)) [
  | inl good ↦ rw good (in_order _ (number_from-InOrder size 1 is good))
  | inr bad ↦ rw bad (may_not_retry none)
]

module _ (is_space : ℕ → Bool) (convert : Numbers) where
  of_body-IsNormal :
      (size : ℕ) (body : Option Value) → IsNormal size (of_body is_space convert size body)
  of_body-IsNormal size none = may_not_retry none
  of_body-IsNormal size (some body) = of_indices-IsNormal size _

  of_answer-IsAnswer :
      (size : ℕ) (a : HttpAnswer) → IsAnswer size (of_answer is_space convert size a)
  of_answer-IsAnswer size transport_failed = normal (may_retry none)
  of_answer-IsAnswer size (call_broke n) = failing (unnormalized n)
  of_answer-IsAnswer size (response status body) =
      elim (Bool-cases (status == 429 || leb 500 status)) [
        | inl busy ↦ rw busy (normal (may_retry _))
        | inr other ↦ elim (Bool-cases (leb 400 status)) [
          | inl bad ↦ rw (other, bad) (normal (may_not_retry _))
          | inr good ↦ rw (other, good) (normal (of_body-IsNormal size body))
        ]
      ]

  with_token-IsAnswer :
      (size : ℕ) (token : Checked Text) (a : HttpAnswer)
      → IsAnswer size (then_rerank token (λ access. of_answer is_space convert size a))
  with_token-IsAnswer size (passed t) a = of_answer-IsAnswer size a
  with_token-IsAnswer size (rejected e) a = failing e

  gcp_rerank-IsAnswer :
      (project_id : Text) (token : Checked Text) (a : HttpAnswer) (r : RerankRequest)
      → IsAnswer (length r.documents) (gcp_rerank is_space convert project_id token a r)
  unfolding gcp_rerank
  gcp_rerank-IsAnswer project_id token a r =
      elim (Bool-cases (validate_request is_space (some 200) r)) [
        | inr bad ↦ rw bad (normal (may_not_retry none))
        | inl good ↦ elim (Bool-cases (is_nil r.documents)) [
          | inl nothing ↦ rw (good, nothing) (normal (in_order [] tt))
          | inr documents ↦ elim (Bool-cases (is_nil project_id)) [
            | inl unset ↦ rw (good, documents, unset) (normal (may_not_retry none))
            | inr set ↦ rw (good, documents, set) (with_token-IsAnswer (length r.documents) token a)
          ]
        ]
      ]

  of_aws_answer-IsNormal :
      (size : ℕ) (a : AwsAnswer) → IsNormal size (of_aws_answer is_space convert size a)
  of_aws_answer-IsNormal size (client_error code) =
      elim (Bool-cases (contains_text code transient_codes)) [
        | inl known ↦ rw known (may_retry _)
        | inr other ↦ rw other (may_not_retry _)
      ]
  of_aws_answer-IsNormal size botocore_error = may_retry none
  of_aws_answer-IsNormal size other_failure = may_not_retry none
  of_aws_answer-IsNormal size (aws_response body) = of_indices-IsNormal size _

  of_client-IsCascaded :
      (size : ℕ) (build : Option ℕ) (a : AwsAnswer)
      → IsCascaded size build (of_client is_space convert size build a)
  of_client-IsCascaded size (some n) a = not_built n refl
  of_client-IsCascaded size none a = normalized (of_aws_answer-IsNormal size a)

  aws_rerank-IsCascaded :
      (build : Option ℕ) (a : AwsAnswer) (r : RerankRequest)
      → IsCascaded (length r.documents) build (aws_rerank is_space convert build a r)
  unfolding aws_rerank
  aws_rerank-IsCascaded build a r = elim (Bool-cases (validate_request is_space none r)) [
    | inr bad ↦ rw bad (normalized (may_not_retry none))
    | inl good ↦ elim (Bool-cases (is_nil r.documents)) [
      | inl nothing ↦ rw (good, nothing) (normalized (in_order [] tt))
      | inr documents ↦ rw (good, documents) (of_client-IsCascaded (length r.documents) build a)
    ]
  ]

  after_primary-IsCascaded :
      (size : ℕ) (build : Option ℕ) (fallback r : Reranked)
      → IsCascaded size build fallback
      → IsAnswer size r
      → IsCascaded size build (after_primary fallback r)
  after_primary-IsCascaded size build fallback (ranked ds) f (normal h) = normalized h
  after_primary-IsCascaded size build fallback (refused (transient code)) f a = f
  after_primary-IsCascaded size build fallback (refused (terminal code)) f a =
      normalized (may_not_retry code)
  after_primary-IsCascaded size build fallback (refused plain_error) f a = f
  after_primary-IsCascaded size build fallback (refused (unnormalized n)) f a = f

  -- Whatever the two vendors answer, numbers that are not finite apart, the cascade of GCP before AWS
  -- gives indices of the documents, ranked from 1 on, or a failure of one of the two classes that its
  -- callers handle; or, only where building the client of AWS raises, that exception.
  pub cascade-IsCascaded :
      (project_id : Text) (token : Checked Text) (gcp : HttpAnswer) (build : Option ℕ)
      (aws : AwsAnswer) (r : RerankRequest)
      → IsCascaded (length r.documents) build (
          cascade
            (gcp_rerank is_space convert project_id token gcp)
            (aws_rerank is_space convert build aws)
            r)
  unfolding cascade
  cascade-IsCascaded project_id token gcp build aws r =
      after_primary-IsCascaded (length r.documents) build (aws_rerank is_space convert build aws r)
        _ (aws_rerank-IsCascaded build aws r) (gcp_rerank-IsAnswer project_id token gcp r)

  -- Once the client of AWS is built, every answer is normal.
  pub cascade-IsNormal :
      (project_id : Text) (token : Checked Text) (gcp : HttpAnswer) (aws : AwsAnswer)
      (r : RerankRequest)
      → IsNormal (length r.documents) (
          cascade
            (gcp_rerank is_space convert project_id token gcp)
            (aws_rerank is_space convert none aws)
            r)
  cascade-IsNormal project_id token gcp aws r =
      IsCascaded-IsNormal (length r.documents) _
        (cascade-IsCascaded project_id token gcp none aws r)
    where
      IsCascaded-IsNormal : (size : ℕ) (x : Reranked) → IsCascaded size none x → IsNormal size x
      IsCascaded-IsNormal size x (normalized h) = h
      IsCascaded-IsNormal size _ (not_built n e) = absurd cc
