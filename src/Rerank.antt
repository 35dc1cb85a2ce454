-- ===== src/Rerank.antt =====
-- Reranking: app/core/domain/reranker.py, the adapters app/core/providers/gcp_reranker.py and
-- aws_reranker.py, and cascading_reranker.py above them. What a vendor answers is an argument, as are
-- Python's `int` and `float` on a JSON value. Messages, credentials and logs are left out.
pub mod Normal
mod Tests
use llm_chat_platform.Base.{
  ℕ, suc, ◌≡◌, Bool, true, false, not, ◌&&◌, ◌||◌, List, [], ◌∷◌, map, Option, none, some, String,
  Text, codes, text_eq, length, is_nil, strip, ltb, leb, ◌==◌, if◌then◌else◌,
}
use llm_chat_platform.Base.Int.{ℤ, pos, negsuc}
use llm_chat_platform.Base.Options.{◌>>=◌}
use llm_chat_platform.Json.{Value, null, str, list, dict, end, items, get, decimal}

pub record RerankRequest : Type 0 where
  pub query : Text
  pub documents : List Text
  pub top_n : Option ℤ

-- The score is not read.
pub record RankedDocument : Type 0 where
  pub index : ℤ
  pub rank : ℤ

-- `TransientRerankerError` and `TerminalRerankerError` with their codes, a `RerankerError` of neither
-- class, and an exception that no adapter normalized.
pub data RerankFailure : Type 0 where
  transient terminal : (error_code : Option Text) → RerankFailure
  plain_error : RerankFailure
  unnormalized : ℕ → RerankFailure

pub data Reranked : Type 0 where
  ranked : List RankedDocument → Reranked
  refused : RerankFailure → Reranked

-- What follows a call that may be refused.
pub data Checked (A : Type 0) : Type 0 where
  passed : A → Checked A
  rejected : RerankFailure → Checked A

abbrev pub then_rerank : {A : Type 0} → Checked A → (A → Reranked) → Reranked
then_rerank (passed a) next = next a
then_rerank (rejected e) next = refused e

abbrev pub require : Bool → Checked (Unit {0})
require true = passed tt
require false = rejected (terminal none)

-- `int` and `float` of the standard library on a JSON value, and where they raise a `TypeError` or a
-- `ValueError`; a number that is not finite, or too large for `float`, is left out.
pub record Numbers : Type 0 where
  pub int_of : Value → Option ℤ
  pub is_float : Value → Bool

abbrev pub any_blank : (is_space : ℕ → Bool) → List Text → Bool
any_blank is_space [] = false
any_blank is_space (d ∷ ds) = is_nil (strip is_space d) || any_blank is_space ds

abbrev pub requested : (size : ℕ) → Option ℤ → ℤ
requested size none = pos size
requested size (some n) = n

abbrev pub in_range : ℤ → (limit : ℕ) → Bool
in_range (pos n) limit = leb n limit
in_range (negsuc n) limit = false

abbrev pub limit_test : (limit : Option ℕ) → ℕ → Bool
limit_test none size = true
limit_test (some limit) size = leb size limit

-- `_validate_request`; the adapter of GCP has a limit of documents.
unfoldable pub validate_request :
    (is_space : ℕ → Bool) → (max_documents : Option ℕ) → RerankRequest → Bool
validate_request is_space max_documents r =
    not (is_nil (strip is_space r.query))
    && (limit_test max_documents (length r.documents)
        && (not (any_blank is_space r.documents)
            && in_range (requested (length r.documents) r.top_n) (length r.documents)))

-- `enumerate(..., start=1)`
abbrev pub number_from : (rank : ℕ) → List ℤ → List RankedDocument
number_from rank [] = []
number_from rank (i ∷ is) = record { index = i; rank = pos rank } ∷ number_from (suc rank) is

abbrev pub is_index : ℕ → ℤ → Bool
is_index size (pos n) = ltb n size
is_index size (negsuc n) = false

abbrev pub all_indices : ℕ → List ℤ → Bool
all_indices size [] = true
all_indices size (i ∷ is) = is_index size i && all_indices size is

module _ (convert : Numbers) (index_key score_key : String) where
  -- `float(score)` where there is one.
  abbrev pub score_ok : Option Value → Bool
  score_ok none = true
  score_ok (some null) = true
  score_ok (some v) = convert.is_float v

  abbrev pub record_index : Value → Option ℤ
  record_index (dict es) = do
    v ← get index_key es
    i ← convert.int_of v
    if score_ok (get score_key es) then some i else none
  record_index v = none

  abbrev pub record_indices : List Value → Option (List ℤ)
  record_indices [] = some []
  record_indices (v ∷ vs) = do i ← record_index v; is ← record_indices vs; some (i ∷ is)

  abbrev pub listed : Option Value → Option (List ℤ)
  listed (some (list vs)) = record_indices (items vs)
  listed (some (dict end)) = some []
  listed (some (str [])) = some []
  listed v = none

  abbrev pub body_indices : (list_key : String) → Value → Option (List ℤ)
  body_indices list_key (dict es) = listed (get list_key es)
  body_indices list_key v = none

-- The end of both adapters: the indices of the response, in range.
abbrev pub of_indices : (size : ℕ) → Option (List ℤ) → Reranked
of_indices size none = refused (terminal none)
of_indices size (some is) =
    if all_indices size is then ranked (number_from 1 is) else refused (terminal none)

-- What posting the request gives: a transport failure, another exception, or a response.
pub data HttpAnswer : Type 0 where
  transport_failed : HttpAnswer
  call_broke : ℕ → HttpAnswer
  response : (status : ℕ) → (body : Option Value) → HttpAnswer

module _ (is_space : ℕ → Bool) (convert : Numbers) where
  abbrev pub of_body : (size : ℕ) → Option Value → Reranked
  of_body size none = refused (terminal none)
  of_body size (some body) = of_indices size (body_indices convert "id" "score" "records" body)

  abbrev pub of_answer : (size : ℕ) → HttpAnswer → Reranked
  of_answer size transport_failed = refused (transient none)
  of_answer size (call_broke n) = refused (unnormalized n)
  of_answer size (response status body) =
      if status == 429 || leb 500 status
      then refused (transient (some (decimal status)))
      else if leb 400 status
      then refused (terminal (some (decimal status)))
      else of_body size body

  -- `GcpReranker.rerank`, on what its token provider and its post give.
  unfoldable pub gcp_rerank :
      (project_id : Text) → (token : Checked Text) → HttpAnswer → RerankRequest → Reranked
  unfolding validate_request decimal
  gcp_rerank project_id token answer r =
      if validate_request is_space (some 200) r
      then (if is_nil r.documents
          then ranked []
          else then_rerank (require (not (is_nil project_id)))
              (λ done. then_rerank token (λ access. of_answer (length r.documents) answer)))
      else refused (terminal none)

-- What the client of AWS gives: an error of the service, of its own, or another, or a response.
pub data AwsAnswer : Type 0 where
  client_error : (code : Text) → AwsAnswer
  botocore_error other_failure : AwsAnswer
  aws_response : Value → AwsAnswer

abbrev pub contains_text : Text → List Text → Bool
contains_text t [] = false
contains_text t (u ∷ us) = text_eq t u || contains_text t us

unfoldable pub transient_codes : List Text
transient_codes = map codes (
    "InternalServerException" ∷ "ModelNotReadyException" ∷ "ServiceQuotaExceededException"
    ∷ "ServiceUnavailableException" ∷ "ThrottlingException" ∷ "TooManyRequestsException" ∷ [])

-- `_normalize_aws_error`
abbrev pub normalize_client_error : Text → RerankFailure
normalize_client_error code =
    if contains_text code transient_codes then transient (some code) else terminal (some code)

module _ (is_space : ℕ → Bool) (convert : Numbers) where
  abbrev pub of_aws_answer : (size : ℕ) → AwsAnswer → Reranked
  of_aws_answer size (client_error code) = refused (normalize_client_error code)
  of_aws_answer size botocore_error = refused (transient none)
  of_aws_answer size other_failure = refused (terminal none)
  of_aws_answer size (aws_response body) =
      of_indices size (body_indices convert "index" "relevanceScore" "results" body)

  -- The call of a client that was built; the exception that building it raises is not normalized.
  abbrev pub of_client : (size : ℕ) → (build : Option ℕ) → AwsAnswer → Reranked
  of_client size (some n) answer = refused (unnormalized n)
  of_client size none answer = of_aws_answer size answer

  -- `AwsReranker.rerank`, on the exception of `_build_client`, if it raises one, and the answer.
  unfoldable pub aws_rerank : (build : Option ℕ) → AwsAnswer → RerankRequest → Reranked
  unfolding validate_request transient_codes
  aws_rerank build answer r =
      if validate_request is_space none r
      then (if is_nil r.documents then ranked [] else of_client (length r.documents) build answer)
      else refused (terminal none)

-- The `except` clauses of the cascade, with what the fallback would give.
abbrev pub after_primary : (fallback : Reranked) → Reranked → Reranked
after_primary fallback (ranked ds) = ranked ds
after_primary fallback (refused (terminal code)) = refused (terminal code)
after_primary fallback (refused (transient code)) = fallback
after_primary fallback (refused plain_error) = fallback
after_primary fallback (refused (unnormalized n)) = fallback

-- `CascadingRerankerAdapter.rerank`
unfoldable pub cascade : (primary fallback : RerankRequest → Reranked) → RerankRequest → Reranked
cascade primary fallback r = after_primary (fallback r) (primary r)
