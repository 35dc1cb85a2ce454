-- ===== src/Route/Atomic.antt =====
-- A request leaves both messages of its turn behind, or none, and its reply says which.
use llm_chat_platform.Base.{
  ◌≡◌, refl, inl, inr, Bool, true, false, Bool-cases, List, [], ◌∷◌, ◌++◌, map, Option, none, some,
  Text, codes,
}
use llm_chat_platform.Packer.{truncate}
use llm_chat_platform.Provider.{
  Failure, Outcome, provider_error, timed_out, other_error, returned, raised,
}
use llm_chat_platform.Service.{
  ServiceError, Response, ChatServiceStreamSession, StreamChatResult, answered, failed,
  provider_timeout, provider_execution, let_through, stream_chat,
}
use llm_chat_platform.Route.{
  ChatRequest, Db, Tx, Prepared, Environment, not_found, service_failed, db_failed, reached,
  interrupted, success, error, GenerationOutcome,
}
use llm_chat_platform.Route.Answer.{
  ChatResponse, Answered, Executed, http_not_found, responded, execute, bypass, transaction,
  conclude, refused, chat,
}
use llm_chat_platform.Route.Streamed.{
  Streamed, token, error_frame, done_of, internal_frame, not_found_closing, failure_frame,
  service_frame, with_tokens, persist, closing, after_tokens, deliver, event_generator,
}
use llm_chat_platform.Route.Opened.{IsForeign}
use llm_chat_platform.Route.Writes.{
  Commits, persist-Commits, transaction-Commits, persist-IsForeign, transaction-IsForeign,
}

-- Conversations and messages are the old ones.
abbrev pub Keeps : Db → Db → Type 0
Keeps db after = (after.conversations ≡ db.conversations) × (after.messages ≡ db.messages)

-- What a request in one piece may do.
pub data IsAtomic (env : Environment) (request : ChatRequest) (p : Prepared) (db : Db)
    : Answered → Type 0 where
  persisted :
      {a : Answered} (x : Executed) (response : ChatResponse)
      → execute env request p (bypass env request p) ≡ reached x
      → Commits env request x.result.assistant_message.content db a.db
      → a.reply ≡ responded response
      → response.status ≡ success
      → response.user_message_id ≡ some env.fresh.user_message
      → response.assistant_message_id ≡ some env.fresh.assistant_message
      → response.assistant_content
        ≡ some (truncate x.result.assistant_message.content env.settings.max_assistant_chars)
      → IsAtomic env request p db a
  unknown :
      {a : Answered}
      → Keeps db a.db
      → a.reply ≡ http_not_found
      → a.cache_write ≡ none
      → IsForeign env.tenant request.conversation_id db.conversations
      → IsAtomic env request p db a
  dropped :
      {a : Answered} (response : ChatResponse)
      → Keeps db a.db
      → a.reply ≡ responded response
      → a.cache_write ≡ none
      → response.status ≡ error
      → (response.user_message_id ≡ none)
        × (response.assistant_message_id ≡ none)
        × (response.assistant_content ≡ none)
      → IsAtomic env request p db a

module _ (env : Environment) (request : ChatRequest) (p : Prepared) (db : Db) where
  refused-IsAtomic :
      (shown logged : Text) (told : GenerationOutcome)
      → IsAtomic env request p db (refused env request p shown logged told db)
  refused-IsAtomic shown logged told =
      dropped _
        (elim (Bool-cases env.faults.error_commit) [
          | inl broken ↦ rw broken (refl, refl)
          | inr fine ↦ rw fine (refl, refl)
        ])
        refl refl refl (refl, refl, refl)

  conclude-IsAtomic :
      (t : Tx (Db × Executed))
      → transaction env request p db ≡ t
      → IsAtomic env request p db (conclude env request p db t)
  conclude-IsAtomic (reached (after, x)) e =
      let (commits, executed) = transaction-Commits env request db p after x e in
      persisted x _ executed commits refl refl refl refl refl
  conclude-IsAtomic (interrupted not_found) e =
      unknown (refl, refl) refl refl (transaction-IsForeign env request db p e)
  conclude-IsAtomic (interrupted (service_failed provider_timeout)) e =
      refused-IsAtomic (codes "provider timeout") (codes "provider timeout") _
  conclude-IsAtomic (interrupted (service_failed (provider_execution message))) e =
      refused-IsAtomic message message _
  conclude-IsAtomic (interrupted (service_failed (let_through failure))) e =
      refused-IsAtomic (codes "internal error") (env.failure_text failure) _
  conclude-IsAtomic (interrupted db_failed) e =
      refused-IsAtomic (codes "internal error") env.db_error_text _

  -- A request in one piece either commits the user message and the answer, cut to its limit, in a
  -- conversation of the tenant, and replies with their ids; or leaves conversations and messages as
  -- they were, caches nothing, and replies with no id: with a 404 only where the conversation is
  -- unknown or another tenant's, otherwise with an error.
  pub chat-IsAtomic : IsAtomic env request p db (chat env request p db)
  unfolding chat
  chat-IsAtomic = conclude-IsAtomic (transaction env request p db) refl

-- What a streamed request may do, behind the chunks of its session.
pub data IsDelivered (env : Environment) (request : ChatRequest) (p : Prepared) (db : Db)
    : Streamed → Type 0 where
  completed :
      {s : Streamed} (session : ChatServiceStreamSession) (r : StreamChatResult)
      → stream_chat
          (env.resolve true p.messages p.metadata)
          (env.resolve false p.messages p.metadata)
        ≡ answered session
      → session.broken ≡ none
      → session.final_result ≡ returned r
      → Commits env request r.assistant_message.content db s.db
      → s.frames ≡ map token session.chunks ++ (done_of env request p ∷ [])
      → IsDelivered env request p db s
  broken_off :
      {s : Streamed} (chunks : List Text) (kind : Text) (retryable : Option Bool)
      → s.db ≡ db
      → s.frames ≡ map token chunks ++ (error_frame kind retryable ∷ [])
      → IsDelivered env request p db s
  unknown_twice :
      {s : Streamed} (chunks : List Text)
      → s.db ≡ db
      → s.frames ≡ map token chunks ++ (error_frame (codes "not_found") none ∷ internal_frame ∷ [])
      → env.faults.commit ≡ true
      → IsForeign env.tenant request.conversation_id db.conversations
      → IsDelivered env request p db s

module _ (env : Environment) (request : ChatRequest) (p : Prepared) (db : Db) where
  -- A frame of failure alone.
  failure_frame-IsDelivered :
      (chunks : List Text) (e : Failure) (told : GenerationOutcome)
      → IsDelivered env request p db
          (record { db = db; frames = map token chunks ++ (failure_frame e ∷ []); outcome = told })
  failure_frame-IsDelivered chunks (provider_error e) told = broken_off chunks _ _ refl refl
  failure_frame-IsDelivered chunks timed_out told = broken_off chunks _ _ refl refl
  failure_frame-IsDelivered chunks (other_error n) told = broken_off chunks _ _ refl refl

  service_frame-IsDelivered :
      (chunks : List Text) (e : ServiceError) (told : GenerationOutcome)
      → IsDelivered env request p db
          (record { db = db; frames = map token chunks ++ (service_frame e ∷ []); outcome = told })
  service_frame-IsDelivered chunks (let_through e) told = failure_frame-IsDelivered chunks e told
  service_frame-IsDelivered chunks provider_timeout told = broken_off chunks _ _ refl refl
  service_frame-IsDelivered chunks (provider_execution m) told = broken_off chunks _ _ refl refl

  not_found-IsDelivered :
      (chunks : List Text) (raised : Bool)
      → env.faults.commit ≡ raised
      → IsForeign env.tenant request.conversation_id db.conversations
      → IsDelivered env request p db
          (with_tokens env request p chunks (not_found_closing raised db))
  not_found-IsDelivered chunks true e foreign = unknown_twice chunks refl refl e foreign
  not_found-IsDelivered chunks false e foreign = broken_off chunks _ _ refl refl

  closing-IsDelivered :
      (session : ChatServiceStreamSession) (r : StreamChatResult) (t : Tx Db)
      → stream_chat
          (env.resolve true p.messages p.metadata)
          (env.resolve false p.messages p.metadata)
        ≡ answered session
      → session.broken ≡ none
      → session.final_result ≡ returned r
      → persist env request p r db ≡ t
      → IsDelivered env request p db
          (with_tokens env request p session.chunks (closing env request p db t))
  closing-IsDelivered session r (reached after) opened whole last e =
      completed session r opened whole last (persist-Commits env request db p r after e) refl
  closing-IsDelivered session r (interrupted not_found) opened whole last e =
      not_found-IsDelivered session.chunks env.faults.commit refl
        (persist-IsForeign env request db p r e)
  closing-IsDelivered session r (interrupted (service_failed x)) opened whole last e =
      service_frame-IsDelivered session.chunks x _
  closing-IsDelivered session r (interrupted db_failed) opened whole last e =
      broken_off session.chunks _ _ refl refl

  after_tokens-IsDelivered :
      (session : ChatServiceStreamSession) (broken : Option Failure)
      (last : Outcome StreamChatResult)
      → stream_chat
          (env.resolve true p.messages p.metadata)
          (env.resolve false p.messages p.metadata)
        ≡ answered session
      → session.broken ≡ broken
      → session.final_result ≡ last
      → IsDelivered env request p db
          (with_tokens env request p session.chunks (after_tokens env request p db broken last))
  after_tokens-IsDelivered session (some f) last opened b l =
      failure_frame-IsDelivered session.chunks f _
  after_tokens-IsDelivered session none (raised f) opened b l =
      failure_frame-IsDelivered session.chunks f _
  after_tokens-IsDelivered session none (returned r) opened b l =
      closing-IsDelivered session r (persist env request p r db) opened b l refl

  deliver-IsDelivered :
      (served : Response ChatServiceStreamSession)
      → stream_chat
          (env.resolve true p.messages p.metadata)
          (env.resolve false p.messages p.metadata)
        ≡ served
      → IsDelivered env request p db (deliver env request p db served)
  deliver-IsDelivered (failed e) opened = service_frame-IsDelivered [] e _
  deliver-IsDelivered (answered session) opened =
      after_tokens-IsDelivered session session.broken session.final_result opened refl refl

  -- A streamed request always ends, behind the chunks it delivered: with a frame `done` if and only
  -- if both messages of the turn were committed, which needs a session that did not break and gave
  -- its final result; otherwise with one error frame and the database as it was. Two error frames
  -- need a foreign conversation and a commit that raises.
  pub event_generator-IsDelivered : IsDelivered env request p db (event_generator env request p db)
  unfolding event_generator
  event_generator-IsDelivered = deliver-IsDelivered _ refl
