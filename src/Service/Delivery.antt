-- ===== src/Service/Delivery.antt =====
-- A streamed answer over a provider with a fallback: `stream_chat` of
-- app/core/domain/chat_service.py on `ResilientProvider`.
use mathlib.Core.Path.{subst}
use llm_chat_platform.Base.{◌≡◌, refl, ap, sym, ◌∙◌, Option, none, some, List, [], ◌∷◌, Text}
use llm_chat_platform.Provider.{Outcome, ProviderStreamSession, ProviderPort, returned, raised}
use llm_chat_platform.Resilient.{generate, stream}
use llm_chat_platform.Resilient.Served.{IsServed, whole, replaced, unreplaced, failed_twice}
use llm_chat_platform.Resilient.Stream.{IsStreamed, served, started_over, stream-IsStreamed}
use llm_chat_platform.Service.{
  Response, answered, failed, ChatServiceResult, ChatServiceStreamSession, run, whole_answer,
  open_session, stream_chat,
}

-- A `ResilientProvider` as a provider.
abbrev pub resilient_port : ProviderPort → ProviderPort → ProviderPort
resilient_port primary fallback = record {
  label = primary.label;
  generate = (generate primary fallback).0;
  stream = some (stream primary fallback).0;
}

-- Where the chunks of an answer come from.
pub data IsFromOne (primary fallback : ProviderPort) (plain : Outcome ProviderPort)
    (chunks : List Text) : Type 0 where
  from_primary :
      (s : ProviderStreamSession)
      → primary.stream ≡ some (returned (some s))
      → chunks ≡ s.chunks
      → IsFromOne primary fallback plain chunks
  from_fallback :
      (s : ProviderStreamSession)
      → fallback.stream ≡ some (returned (some s))
      → chunks ≡ s.chunks
      → IsFromOne primary fallback plain chunks
  from_plain_answer :
      (r : ChatServiceResult)
      → (run plain).0 ≡ answered r
      → chunks ≡ r.assistant_message.content ∷ []
      → IsFromOne primary fallback plain chunks
  no_chunk : chunks ≡ [] → IsFromOne primary fallback plain chunks

abbrev chunks_of : Response ChatServiceStreamSession → List Text
chunks_of (answered d) = d.chunks
chunks_of (failed e) = []

module _ (primary fallback : ProviderPort) (plain : Outcome ProviderPort) where
  served-IsFromOne :
      (s given : ProviderStreamSession)
      → primary.stream ≡ some (returned (some s))
      → IsServed fallback s given
      → IsFromOne primary fallback plain given.chunks
  served-IsFromOne s given eq (whole chunks final first) = from_primary s eq chunks
  served-IsFromOne s given eq (replaced empty needed second eq2 chunks final) =
      from_fallback second eq2 chunks
  served-IsFromOne s given eq (unreplaced empty needed lost chunks final) = no_chunk chunks
  served-IsFromOne s given eq (failed_twice empty needed f eq2 chunks final) = no_chunk chunks

  whole_answer-IsFromOne :
      (o : Response ChatServiceResult) (c : ChatServiceStreamSession)
      → (run plain).0 ≡ o
      → whole_answer o ≡ answered c
      → IsFromOne primary fallback plain c.chunks
  whole_answer-IsFromOne (failed e) c eq h = absurd cc
  whole_answer-IsFromOne (answered r) c eq h = from_plain_answer r eq (sym (ap chunks_of h))

  subst-IsFromOne :
      {cs ds : List Text}
      → ds ≡ cs
      → IsFromOne primary fallback plain cs
      → IsFromOne primary fallback plain ds
  subst-IsFromOne eq h = subst (IsFromOne primary fallback plain) (sym eq) h

  open_session-IsFromOne :
      (o : Outcome (Option ProviderStreamSession)) (c : ChatServiceStreamSession)
      → IsStreamed primary fallback o
      → open_session plain (some o) ≡ answered c
      → IsFromOne primary fallback plain c.chunks
  unfolding open_session
  open_session-IsFromOne (returned (some given)) c (served s _ eq from_s) h =
      subst-IsFromOne (sym (ap chunks_of h)) (served-IsFromOne s given eq from_s)
  open_session-IsFromOne (returned (some given)) c
        (started_over e second _ eq again eq2 chunks final) h =
      from_fallback second eq2 (sym (ap chunks_of h) ∙ chunks)
  open_session-IsFromOne (returned none) c streamed h =
      whole_answer-IsFromOne (run plain).0 c refl h
  open_session-IsFromOne (raised e) c streamed h = absurd cc

  -- A streamed answer over a provider with a fallback has its chunks from one place: one session of
  -- the primary, or one session of the fallback, or the whole answer of a plain call as one chunk;
  -- or it has no chunk.
  pub stream_chat-IsFromOne :
      (c : ChatServiceStreamSession)
      → stream_chat (returned (resilient_port primary fallback)) plain ≡ answered c
      → IsFromOne primary fallback plain c.chunks
  unfolding stream_chat
  stream_chat-IsFromOne c h =
      open_session-IsFromOne (stream primary fallback).0 c (stream-IsStreamed primary fallback) h
