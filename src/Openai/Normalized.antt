-- ===== src/Openai/Normalized.antt =====
-- What a caller of the adapter of OpenAI gets.
use llm_chat_platform.Base.{
  ℕ, ◌≡◌, ◌≢◌, refl, inl, inr, sym, ◌∙◌, Bool-cases, List, [], ◌∷◌, Option, none, some, Text, codes,
  concat, non_empty_or, strip, leb,
}
use llm_chat_platform.Base.Options.{◌>>=◌}
use llm_chat_platform.Json.{Value, Entries, get}
use llm_chat_platform.Provider.{
  ProviderError, Outcome, ProviderResult, ProviderStreamResult, ProviderStreamSession,
  provider_error, timed_out, other_error, returned, raised,
}
use llm_chat_platform.Retry.{retry_async}
use llm_chat_platform.Openai.{
  OpenaiConfig, Builtins, PostAnswer, asked, dict_or_empty, list_or_empty, items_text,
  extract_output_text, build_provider_result, result_with, or_unknown, after_attempts, op,
  should_retry, policy_of, generate,
}
use llm_chat_platform.Openai.Events.{
  StreamFailure, SseEvent, EventStream, iter_sse_events, nothing_pending,
}
use llm_chat_platform.Openai.Stream.{
  Consumed, StreamAnswer, put_part, unless_failed, consume, finished_state, final_state,
  get_final_result, open_failed, opened, stream, extract_stream_delta,
}

-- A text that is not empty stays, another becomes one that is not.
non_empty_or-≢ : (t other : Text) → other ≢ [] → non_empty_or t other ≢ []
non_empty_or-≢ [] other h = h
non_empty_or-≢ (c ∷ t) other h = λ e. cc

-- A result of the adapter's own, with an answer.
pub record IsAnswer (r : ProviderResult) : Type 0 where
  pub by_openai : r.provider ≡ codes "openai"
  pub content : r.content ≢ []

-- What a call gives: an answer or a `ProviderError`.
pub data IsNormal : Outcome ProviderResult → Type 0 where
  answer : {r : ProviderResult} → IsAnswer r → IsNormal (returned r)
  failure : (e : ProviderError) → IsNormal (raised (provider_error e))

data IsBuilt : Option ProviderResult → Type 0 where
  not_built : IsBuilt none
  built : {r : ProviderResult} → IsAnswer r → IsBuilt (some r)

data HasContent : Option Text → Type 0 where
  no_content : HasContent none
  content : {t : Text} → t ≢ [] → HasContent (some t)

module _ (python : Builtins) where
  text-HasContent :
      (t : Option Text)
      → HasContent (
          t >>= λ text. some (non_empty_or (strip python.is_space text) (codes "(empty response)")))
  text-HasContent none = no_content
  text-HasContent (some t) =
      content (non_empty_or-≢ (strip python.is_space t) (codes "(empty response)") (λ e. cc))

  output-HasContent :
      (output : Option (List Value))
      → HasContent (
          output >>= λ vs. items_text python vs >>= λ text.
          some (non_empty_or (strip python.is_space text) (codes "(empty response)")))
  output-HasContent none = no_content
  output-HasContent (some vs) = text-HasContent (items_text python vs)

  extract_output_text-HasContent :
      (payload : Entries) → HasContent (extract_output_text python payload)
  unfolding extract_output_text
  extract_output_text-HasContent payload =
      output-HasContent (list_or_empty python (get "output" payload))

  module _ (config : OpenaiConfig) (latency_ms : ℕ) where
    with_content-IsBuilt :
        (usage : Option Entries) (text : Option Text) (build : Entries → Text → ProviderResult)
        → HasContent text
        → ((es : Entries) (t : Text) → (build es t).provider ≡ codes "openai")
        → ((es : Entries) (t : Text) → (build es t).content ≡ t)
        → IsBuilt (usage >>= λ es. text >>= λ t. some (build es t))
    with_content-IsBuilt none text build h p c = not_built
    with_content-IsBuilt (some es) none build h p c = not_built
    with_content-IsBuilt (some es) (some t) build (content h) p c =
        built (record { by_openai = p es t; content = λ e. h (sym (c es t) ∙ e) })

    build_provider_result-IsBuilt :
        (payload : Entries) → IsBuilt (build_provider_result python config latency_ms payload)
    unfolding build_provider_result
    build_provider_result-IsBuilt payload =
        with_content-IsBuilt (dict_or_empty python (get "usage" payload))
          (extract_output_text python payload) (result_with python config latency_ms payload)
          (extract_output_text-HasContent payload) (λ es t. refl) (λ es t. refl)

    or_unknown-IsNormal : (r : Option ProviderResult) → IsBuilt r → IsNormal (or_unknown r)
    or_unknown-IsNormal _ not_built = failure _
    or_unknown-IsNormal _ (built a) = answer a

    body-IsBuilt :
        (body : Option Value)
        → IsBuilt (body >>= asked python >>= build_provider_result python config latency_ms)
    body-IsBuilt none = not_built
    body-IsBuilt (some v) = asked-IsBuilt (asked python v)
      where
        asked-IsBuilt :
            (es : Option Entries) → IsBuilt (es >>= build_provider_result python config latency_ms)
        asked-IsBuilt none = not_built
        asked-IsBuilt (some es) = build_provider_result-IsBuilt es

    after_attempts-IsNormal :
        (o : Outcome (Option Value)) → IsNormal (after_attempts python config latency_ms o)
    after_attempts-IsNormal (raised (provider_error e)) = failure e
    after_attempts-IsNormal (raised timed_out) = failure _
    after_attempts-IsNormal (raised (other_error n)) = failure _
    after_attempts-IsNormal (returned body) = or_unknown-IsNormal _ (body-IsBuilt body)

    -- Whatever the attempts are answered, a plain call gives an answer that is not empty, or raises a
    -- `ProviderError`, never another exception.
    pub generate-IsNormal :
        (jitter : ℕ → ℕ) (answers : ℕ → PostAnswer)
        → IsNormal (generate python jitter config latency_ms answers)
    unfolding generate
    generate-IsNormal jitter answers =
        after_attempts-IsNormal
          (retry_async jitter (λ n. op (answers n)) should_retry (policy_of config)).0

-- What awaiting the final result gives behind the chunks that were read: their concatenation, or an
-- answer from elsewhere in the response where there was none, or a `ProviderError`.
pub data IsFinal (chunks : List Text) : Outcome ProviderStreamResult → Type 0 where
  told :
      (r : ProviderStreamResult)
      → r.content ≡ concat chunks
      → r.provider_result.content ≡ r.content
      → IsFinal chunks (returned r)
  silent :
      (r : ProviderStreamResult)
      → chunks ≡ []
      → r.content ≢ []
      → r.provider_result.content ≡ r.content
      → IsFinal chunks (returned r)
  broke : (e : ProviderError) → IsFinal chunks (raised (provider_error e))

pub data IsServed : Outcome (Option ProviderStreamSession) → Type 0 where
  served :
      (s : ProviderStreamSession)
      → s.broken ≡ none
      → IsFinal s.chunks s.final_result
      → IsServed (returned (some s))
  not_opened : (e : ProviderError) → IsServed (raised (provider_error e))

-- No part of the queue is empty.
abbrev HasParts : Consumed → Type 0
HasParts c = (concat c.parts ≡ []) → c.parts ≡ []

module _ (python : Builtins) where
  put_part-HasParts : (t : Text) (c : Consumed) → HasParts c → HasParts (put_part t c)
  put_part-HasParts [] c h e = h e
  put_part-HasParts (d ∷ t) c h e = absurd cc

  unless_failed-HasParts :
      (f : Option StreamFailure) (completed : Option Entries) (c : Consumed)
      → HasParts c
      → HasParts (unless_failed f completed c)
  unless_failed-HasParts (some f) completed c h e = refl
  unless_failed-HasParts none completed c h e = h e

  consume-HasParts :
      (es : List SseEvent) (f : Option StreamFailure) (completed : Option Entries)
      → HasParts (consume python es f completed)
  unfolding consume
  consume-HasParts [] f completed = λ e. refl
  consume-HasParts (e ∷ es) f completed =
      unless_failed-HasParts _ completed _
        (put_part-HasParts (extract_stream_delta e) _ (consume-HasParts es f _))

  finished_state-IsFinal :
      (parts : List Text) (text : Text) (r : Option ProviderResult)
      → concat parts ≡ text
      → (text ≡ [] → parts ≡ [])
      → IsBuilt r
      → IsFinal parts (get_final_result (finished_state text r))
  finished_state-IsFinal parts text _ e h not_built = broke _
  finished_state-IsFinal parts [] _ e h (built a) = silent _ (h refl) a.content refl
  finished_state-IsFinal parts (c ∷ t) _ e h (built a) = told _ (sym e) refl

  module _ (config : OpenaiConfig) (latency_ms : ℕ) where
    final_state-IsFinal :
        (c : Consumed)
        → HasParts c
        → (f : Option StreamFailure)
        → IsFinal c.parts
            (get_final_result (final_state python config latency_ms c.parts c.completed f))
    final_state-IsFinal c h (some f) = broke _
    final_state-IsFinal c h none =
        finished_state-IsFinal c.parts (concat c.parts) _ refl h
          (build_provider_result-IsBuilt python config latency_ms _)

    -- Whatever the stream is answered, it is not opened, with a `ProviderError`, or its session never
    -- breaks off while it is read; and awaiting its final result gives the concatenation of the
    -- chunks that were read, or where there was none an answer that is not empty, or raises a
    -- `ProviderError`.
    pub stream-IsServed : (a : StreamAnswer) → IsServed (stream python config latency_ms a)
    unfolding stream
    stream-IsServed (open_failed e) = not_opened _
    stream-IsServed (opened status lines broken) = elim (Bool-cases (leb 400 status)) [
      | inl bad ↦ rw bad (not_opened _)
      | inr good ↦ rw good (
          let read : EventStream = iter_sse_events python.is_space lines broken nothing_pending in
          let c = consume python read.events read.failure none in
          served _ refl
            (final_state-IsFinal c (consume-HasParts read.events read.failure none) c.failure))
    ]
