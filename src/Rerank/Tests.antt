-- ===== src/Rerank/Tests.antt =====
-- Answers of the two vendors, and the theorem there.
use llm_chat_platform.Base.{
  ℕ, ◌≡◌, refl, Bool, true, false, ◌==◌, List, [], ◌∷◌, Option, none, some, codes,
}
use llm_chat_platform.Base.Int.{ℤ, pos, negsuc}
use llm_chat_platform.Json.{Value, int, list, dict, items_of, end, field}
use llm_chat_platform.Rerank.{
  RerankRequest, Reranked, Numbers, HttpAnswer, AwsAnswer, passed, ranked, refused, transient,
  terminal, unnormalized, response, call_broke, transport_failed, client_error, aws_response,
  gcp_rerank, aws_rerank, cascade,
}
use llm_chat_platform.Rerank.Normal.{IsCascaded, cascade-IsCascaded}

abbrev is_blank : ℕ → Bool
is_blank c = c == 32

abbrev to_int : Value → Option ℤ
to_int (int z) = some z
to_int v = none

abbrev to_float : Value → Bool
to_float (int z) = true
to_float v = false

abbrev python : Numbers
python = record { int_of = to_int; is_float = to_float }

abbrev asked : RerankRequest
asked = record { query = codes "q"; documents = codes "a" ∷ codes "b" ∷ []; top_n = none }

abbrev result_of : ℤ → Value
result_of i = dict (field "index" (int i) (field "relevanceScore" (int (pos 1)) end))

abbrev answered : List Value → AwsAnswer
answered vs = aws_response (dict (field "results" (list (items_of vs)) end))

abbrev both : HttpAnswer → AwsAnswer → Reranked
both gcp aws =
    cascade (gcp_rerank is_blank python (codes "project") (passed (codes "t")) gcp)
      (aws_rerank is_blank python none aws) asked

-- The fallback answers after a busy primary, also after an exception that nobody normalized.
busy_primary :
    both (response 503 none) (answered (result_of (pos 1) ∷ result_of (pos 0) ∷ []))
    ≡ ranked (record { index = pos 1; rank = pos 1 } ∷ record { index = pos 0; rank = pos 2 } ∷ [])
unfolding cascade gcp_rerank aws_rerank
busy_primary = refl

broken_primary :
    both (call_broke 1) (client_error (codes "ThrottlingException"))
    ≡ refused (transient (some (codes "ThrottlingException")))
unfolding cascade gcp_rerank aws_rerank
broken_primary = refl

-- A terminal error stays, whatever the fallback would answer.
rejected_primary : both (response 400 none) (answered []) ≡ refused (terminal (some (codes "400")))
unfolding cascade gcp_rerank
rejected_primary = refl

-- A negative index is no index.
negative_index :
    both transport_failed (answered (result_of (negsuc 0) ∷ [])) ≡ refused (terminal none)
unfolding cascade gcp_rerank aws_rerank
negative_index = refl

-- A client of AWS that cannot be built.
abbrev no_client : HttpAnswer → Reranked
no_client gcp =
    cascade (gcp_rerank is_blank python (codes "project") (passed (codes "t")) gcp)
      (aws_rerank is_blank python (some 3) (answered [])) asked

unbuilt_fallback : no_client (response 503 none) ≡ refused (unnormalized 3)
unfolding cascade gcp_rerank aws_rerank
unbuilt_fallback = refl

cascade-IsCascaded_example : IsCascaded 2 (some 3) (no_client (response 503 none))
cascade-IsCascaded_example =
    cascade-IsCascaded is_blank python (codes "project") (passed (codes "t")) (response 503 none)
      (some 3) (answered []) asked
