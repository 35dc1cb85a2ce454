-- ===== src/Openai/Shown.antt =====
-- From the stream of OpenAI to the tables: what a streamed request shows and what it stores.
use mathlib.Core.Path.{subst}
use llm_chat_platform.Base.{
  ℕ, true, false, ◌≡◌, refl, ap, sym, ◌∙◌, List, [], ◌∷◌, ◌++◌, map, Option, some, Text, concat,
}
use llm_chat_platform.Provider.{
  Outcome, ProviderStreamResult, ProviderStreamSession, ProviderPort, returned,
}
use llm_chat_platform.Service.{
  StreamChatResult, ChatServiceStreamSession, answered, answer_of, chat_result, open_session,
  stream_chat,
}
use llm_chat_platform.Route.{ChatRequest, Db, Prepared, Environment}
use llm_chat_platform.Route.Streamed.{Streamed, token, done_of, event_generator}
use llm_chat_platform.Route.Writes.{Commits}
use llm_chat_platform.Route.Atomic.{
  IsDelivered, completed, broken_off, unknown_twice, event_generator-IsDelivered,
}
use llm_chat_platform.Openai.{OpenaiConfig, Builtins}
use llm_chat_platform.Openai.Stream.{StreamAnswer, stream}
use llm_chat_platform.Openai.Normalized.{
  IsFinal, told, silent, broke, IsServed, served, not_opened, stream-IsServed,
}

-- The content behind the chunks: their concatenation, unless there was none.
pub data IsContentOf (chunks : List Text) (content : Text) : Type 0 where
  shown : content ≡ concat chunks → IsContentOf chunks content
  unshown : chunks ≡ [] → IsContentOf chunks content

-- What a streamed request leaves behind.
pub data IsStored (env : Environment) (request : ChatRequest) (p : Prepared) (db : Db)
    (s : Streamed) : Type 0 where
  stored :
      (chunks : List Text) (content : Text)
      → IsContentOf chunks content
      → Commits env request content db s.db
      → s.frames ≡ map token chunks ++ (done_of env request p ∷ [])
      → IsStored env request p db s
  nothing_stored : s.db ≡ db → IsStored env request p db s

IsFinal-IsContentOf :
    (chunks : List Text) (o : Outcome ProviderStreamResult) (r : StreamChatResult)
    → IsFinal chunks o
    → chat_result o ≡ returned r
    → IsContentOf chunks r.assistant_message.content
IsFinal-IsContentOf chunks _ r (told f whole same) e =
    let same_result : record { assistant_message = answer_of f.content; provider_result = some f }
        ≡ r =
      cc in
    shown (ap (λ (x : StreamChatResult). x.assistant_message.content) (sym same_result) ∙ whole)
IsFinal-IsContentOf chunks _ r (silent f nothing _ same) e = unshown nothing
IsFinal-IsContentOf chunks _ r (broke x) e = absurd cc

-- The service's session over a provider's.
abbrev session_with : ProviderStreamSession → ChatServiceStreamSession
session_with s = record {
  chunks = s.chunks;
  broken = s.broken;
  final_result = chat_result s.final_result;
}

IsServed-IsContentOf :
    (plain : Outcome ProviderPort) (o : Outcome (Option ProviderStreamSession))
    (session : ChatServiceStreamSession) (r : StreamChatResult)
    → IsServed o
    → open_session plain (some o) ≡ answered session
    → session.final_result ≡ returned r
    → IsContentOf session.chunks r.assistant_message.content
unfolding open_session
IsServed-IsContentOf plain _ session r (not_opened e) opened final = absurd cc
IsServed-IsContentOf plain _ session r (served s whole final_one) opened final =
    let same : session_with s ≡ session = cc in
    let final_result : chat_result s.final_result ≡ returned r =
      ap (λ (x : ChatServiceStreamSession). x.final_result) same ∙ final in
    subst (λ x. IsContentOf x r.assistant_message.content)
      (ap (λ (x : ChatServiceStreamSession). x.chunks) same)
      (IsFinal-IsContentOf s.chunks s.final_result r final_one final_result)

stream_chat-open_session :
    (streamed plain : Outcome ProviderPort) (provider : ProviderPort)
    (o : Outcome (Option ProviderStreamSession))
    → streamed ≡ returned provider
    → provider.stream ≡ some o
    → stream_chat streamed plain ≡ open_session plain (some o)
unfolding stream_chat
stream_chat-open_session streamed plain provider o resolved streams = rw (resolved, streams) refl

module _ (python : Builtins) (config : OpenaiConfig) (latency_ms : ℕ) (a : StreamAnswer)
    (env : Environment) (request : ChatRequest) (p : Prepared) (db : Db)
    (provider : ProviderPort) where
  -- If a streamed request is resolved to the adapter of OpenAI, then, whatever the vendor answers and
  -- whatever fails, conversations and messages stay as they were, or the answer that is stored, cut to
  -- its limit, is the concatenation of the tokens that the client was shown before the frame `done`;
  -- only where it was shown no token is the answer another one.
  pub event_generator-IsStored :
      env.resolve true p.messages p.metadata ≡ returned provider
      → provider.stream ≡ some (stream python config latency_ms a)
      → IsStored env request p db (event_generator env request p db)
  event_generator-IsStored resolved streams =
      of_delivery _ (event_generator-IsDelivered env request p db)
    where
      of_delivery : (s : Streamed) → IsDelivered env request p db s → IsStored env request p db s
      of_delivery s (completed session r opened unbroken final commits frames) =
          stored session.chunks r.assistant_message.content
            (IsServed-IsContentOf (env.resolve false p.messages p.metadata)
              (stream python config latency_ms a) session r
              (stream-IsServed python config latency_ms a)
              (sym (
                  stream_chat-open_session _ (env.resolve false p.messages p.metadata) provider _
                    resolved streams)
                ∙ opened)
              final)
            commits frames
      of_delivery s (broken_off chunks kind retryable same frames) = nothing_stored same
      of_delivery s (unknown_twice chunks same frames c foreign) = nothing_stored same
