-- ===== src/Lib.antt =====
-- The core of the chat platform: what is sent to a language-model provider, which provider that is,
-- how its failures are handled, and what a request leaves behind. A request carries a conversation and
-- a new user message. The memory channel gives the recent window of the conversation and, beyond it,
-- retrieved events; the documental channel gives retrieved sources, found by a pipeline of rewriting,
-- search and reranking; one cap bounds what both add; the prompt module renders them as system
-- messages; routing chooses a provider, which may have another behind it. The route puts these
-- together: it answers from the cache or from the provider, in one piece or as an event stream, and
-- commits the turn in one transaction.
--
-- Files, and the code that each models (paths from the repository's root):
--   Base: lists, texts, integers, Boolean tests and fallible code, for all other files.
--   Chat: the messages of app/core/domain/types.py.
--   History: ConversationHistoryAssembler of app/core/domain/conversation_history.py. The port's rows
--     are an argument; an assembler is the record of its two bounds.
--   Turns: group_turns, build_materialized_window and _index_of_unit_covering of
--     app/core/domain/conversation_turns.py, and RetrievalCorpus of app/core/domain/retrieval_corpus.py.
--   Packer: pack_recent_window of app/core/domain/context_packer.py, with its helpers.
--   Bm25: query_tokens, rank_events and pack_selected_events of app/core/domain/bm25_ranking.py.
--   Prompt: app/core/domain/provider_prompt.py.
--   Json: the values that the code hands to json.dumps and gets from json.loads, and both functions:
--     Json for ensure_ascii=False, Json.Ascii for the default and for sorted keys, Json.Scan and
--     Json.Load for reading.
--   Rag: RagGenerationAugmentor and its context, app/core/domain/rag_generation.py.
--   Rerank: app/core/domain/reranker.py, the adapters app/core/providers/gcp_reranker.py and
--     aws_reranker.py on what their vendors answer, and cascading_reranker.py above them.
--   Retrieval: app/core/domain/retrieval_pipeline.py; Retrieval.Sources follows its result through Rag.
--   Cache: app/services/chat_response_cache.py; Redis and the digest are arguments.
--   Route: app/api/routes/chat.py. Route has the tables, the settings and what both paths share,
--     Route.Answer the handler in one piece, Route.Streamed the generator of a stream, Route.Sse the
--     text of its frames and an independent reader of event streams.
--   Memory: ChatMemoryContext, app/core/domain/chat_memory.py, and the merge of the two channels'
--     metadata in app/api/routes/chat.py.
--   Dependency: get_chat_memory_context and _materialize_window of app/api/deps.py, which read the
--     history, build and pack the window, and select retrieved events through Bm25.
--   Budget: enforce_added_context_cap of app/core/domain/added_context_budget.py, which uses Packer for
--     the window and Prompt for the rendered sizes; Budget.Sent follows its result into Prompt.
--   Provider: the port and its failures, app/core/domain/provider.py and provider_errors.py.
--   Resilient: ResilientProvider, app/core/providers/resilient_provider.py: both calls, the stream
--     driver with its state and queue, and the log.
--   Openai: app/core/providers/openai_provider.py: the result of a response and the attempts of a call,
--     Openai.Events the events of a stream, Openai.Stream the loop and the session behind it;
--     Openai.Shown puts the stream under Service and Route.
--   Retry: compute_backoff_ms and retry_async, app/core/utils/retry.py.
--   Routing: the two policies of app/core/domain/routing/ and the signals of
--     app/services/routing_signals.py.
--   Factory: app/core/domain/provider_factory.py, which provider object a decision builds.
--   Tenant: app/http/middleware/tenant.py, the tenant of a request and of a scope.
--   Service: ChatService, app/core/domain/chat_service.py; Service.Delivery puts it over Resilient.
--   Chunking: split_recursive of app/services/rag_chunking.py.
--   Trace: TraceService and its helpers, app/services/trace.py.
-- Under each of these, modules named for what they prove hold the lemmas and theorems, and a module
-- Tests holds runs at concrete values.
--
-- Conventions. A text is the list of its code points, so that lengths and slices are those of Python.
-- An identifier whose digits do not matter is a natural number or a text. Lengths, limits and counts
-- are natural numbers, as the settings demand; subtraction stops at 0, which is written out where the
-- source goes below. An exception is a value (Base.Errors, Provider.Failure). An awaited call is what
-- it returns or raises. Loops are structural recursion on the list that they walk; the retry loop
-- recurses on the number of attempts that remain, which the setting gives. Two run on fuel: the
-- splitter, one round for each character, and its theorem shows that this reaches the end of the text;
-- and the reader of JSON, two rounds for each character and one more, which is enough for every text
-- that json.dumps gives of a plain value. The database is the lists of its rows; a transaction gives
-- the rows that it commits, or the exception that left it, and where a call of the database may raise
-- there is a flag that says whether it does. Requests that run at the same time each work on the rows
-- that were committed when they read, and their own come behind the others' when they commit
-- (Route.Ownership); the numbers that the identity column of the messages draws are arguments.
--
-- Not modelled: the network and the vendor libraries behind the adapters of app/core/providers/, with
-- the adapter of Bedrock; app/api/ apart from the parts above; a client that disconnects
-- while a stream is written; settings and their validators; logs, spans and the rows of metrics;
-- experiments/ and scripts/. Parameters stand for the Unicode tables (white space, upper and lower
-- case, the tokenizer), floating-point scores, UUID parsing, token decoding, digests and the random
-- jitter; each theorem names what it needs of them.
pub mod Base
pub mod Chat
pub mod History
pub mod Turns
pub mod Packer
pub mod Json
pub mod Openai
pub mod Prompt
pub mod Rag
pub mod Memory
pub mod Budget
pub mod Bm25
pub mod Provider
pub mod Resilient
pub mod Routing
pub mod Factory
pub mod Trace
pub mod Tenant
pub mod Retry
pub mod Service
pub mod Chunking
pub mod Dependency
pub mod Cache
pub mod Route
pub mod Rerank
pub mod Retrieval
