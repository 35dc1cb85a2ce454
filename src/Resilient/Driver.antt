-- ===== src/Resilient/Driver.antt =====
-- The driver of a stream: `_consume_session` and `_drive_stream` of
-- app/core/providers/resilient_provider.py.
use llm_chat_platform.Base.{
  ◌≡◌, refl, ap, sym, ◌∙◌, true, false, not, ◌&&◌, Option, none, some, List, [], ◌∷◌, ◌++◌, Text,
  map, append_assoc, append-nil, if◌then◌else◌, ◌⊎◌, inl, inr,
}
use llm_chat_platform.Provider.{
  Failure, Outcome, ProviderStreamResult, ProviderStreamSession, ProviderPort, returned, raised,
}
use llm_chat_platform.Resilient.{
  Item, chunk, stream_end, ResilientStreamState, put_chunk, put_chunks, is_retryable_provider_error,
  settle, second_attempt, conclude, put_end, chunks_until_end, get_final_result,
}
use llm_chat_platform.Resilient.Generate.{needs_fallback, failure_of}

abbrev pub items_of : List Text → List Item
items_of = map chunk

pub put_chunks-queue :
    (s : ResilientStreamState) (cs : List Text) → (put_chunks s cs).queue ≡ s.queue ++ items_of cs
put_chunks-queue s [] = sym (append-nil s.queue)
put_chunks-queue s (c ∷ cs) =
    put_chunks-queue (put_chunk s c) cs ∙ append_assoc s.queue (chunk c ∷ []) (items_of cs)

-- What consuming leaves alone.
pub put_chunks-kept :
    (s : ResilientStreamState) (cs : List Text)
    → ((put_chunks s cs).error ≡ s.error)
      × ((put_chunks s cs).fallback_used ≡ s.fallback_used)
      × ((put_chunks s cs).attempts_used ≡ s.attempts_used)
      × ((put_chunks s cs).failure ≡ s.failure)
      × ((put_chunks s cs).final_result ≡ s.final_result)
put_chunks-kept s [] = (refl, refl, refl, refl, refl)
put_chunks-kept s (c ∷ cs) = put_chunks-kept (put_chunk s c) cs

pub put_chunks-first :
    (s : ResilientStreamState) (c : Text) (cs : List Text)
    → (put_chunks s (c ∷ cs)).first_chunk_emitted ≡ true
put_chunks-first s c [] = refl
put_chunks-first s c (d ∷ cs) = put_chunks-first (put_chunk s c) d cs

pub chunks_until_end-items_of :
    (cs : List Text) (rest : List Item) → chunks_until_end (items_of cs ++ stream_end ∷ rest) ≡ cs
chunks_until_end-items_of [] rest = refl
chunks_until_end-items_of (c ∷ cs) rest = ap (λ t. c ∷ t) (chunks_until_end-items_of cs rest)

-- A driver that ends with the outcome `o`, after the chunks `cs` and no failure before, leaves
-- them to the client, and the failure to the log.
module _ (name default : Text) (s : ResilientStreamState) (cs : List Text)
    (queued : s.queue ≡ items_of cs) (sound : s.error ≡ none) (unfailed : s.failure ≡ none) where
  pub settle-chunks :
      (o : Outcome ProviderStreamResult)
      → chunks_until_end (put_end (settle default (s, o))).queue ≡ cs
  settle-chunks (returned r) = rw queued (chunks_until_end-items_of cs [])
  settle-chunks (raised e) = rw queued (chunks_until_end-items_of cs [])

  pub settle-result :
      (o : Outcome ProviderStreamResult)
      → get_final_result name (put_end (settle default (s, o))) ≡ o
  settle-result (returned r) = rw sound refl
  settle-result (raised e) = refl

  pub settle-failure :
      (o : Outcome ProviderStreamResult) → (put_end (settle default (s, o))).failure ≡ failure_of o
  settle-failure (returned r) = unfailed
  settle-failure (raised e) = refl

-- The driver ends after the first attempt.
pub conclude-kept :
    (primary fallback : ProviderPort) (s : ResilientStreamState) (o : Outcome ProviderStreamResult)
    → (not s.first_chunk_emitted && (not s.fallback_used && needs_fallback o)) ≡ false
    → (conclude primary fallback s o).0
      ≡ put_end (settle (if s.fallback_used then fallback.label else primary.label) (s, o))
unfolding conclude
conclude-kept primary fallback s (returned r) h = refl
conclude-kept primary fallback s (raised e) h = rw h refl

pub conclude-again :
    (primary fallback : ProviderPort) (s : ResilientStreamState) (e : Failure)
    → (not s.first_chunk_emitted && (not s.fallback_used && is_retryable_provider_error e)) ≡ true
    → (conclude primary fallback s (raised e)).0
      ≡ put_end (
          second_attempt fallback.label e
            (record s { fallback_used = true; attempts_used = 2 })
            fallback.stream)
unfolding conclude
conclude-again primary fallback s e h = rw h refl

pub put_chunks-none :
    (s : ResilientStreamState) (cs : List Text)
    → (put_chunks s cs).first_chunk_emitted ≡ false
    → cs ≡ []
put_chunks-none s [] h = refl
put_chunks-none s (c ∷ cs) h = let first = put_chunks-first s c cs in absurd cc

pub needs_fallback-raised :
    {A : Type 0} (o : Outcome A)
    → needs_fallback o ≡ true
    → (e : Failure) × (o ≡ raised e) × (is_retryable_provider_error e ≡ true)
needs_fallback-raised (returned r) h = absurd cc
needs_fallback-raised (raised e) h = (e, refl, h)

pub put_chunks-empty :
    (s : ResilientStreamState) (cs : List Text)
    → cs ≡ []
    → (put_chunks s cs).first_chunk_emitted ≡ s.first_chunk_emitted
put_chunks-empty s cs h = rw h refl

-- What the second attempt finds.
pub stream-cases :
    (o : Option (Outcome (Option ProviderStreamSession)))
    → ((o ≡ none) ⊎ (o ≡ some (returned none)))
      ⊎ (((f : Failure) × (o ≡ some (raised f)))
          ⊎ ((second : ProviderStreamSession) × (o ≡ some (returned (some second)))))
stream-cases none = inl (inl refl)
stream-cases (some (returned none)) = inl (inr refl)
stream-cases (some (raised f)) = inr (inl (f, refl))
stream-cases (some (returned (some second))) = inr (inr (second, refl))
