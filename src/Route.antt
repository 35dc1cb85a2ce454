-- ===== src/Route.antt =====
-- The chat route: app/api/routes/chat.py. A UUID is a number; the ones that `uuid4` draws, the time
-- that a request took, and the database calls that raise are arguments. The database is what a
-- transaction would commit. Logs, spans and the row of request metrics are left out.
pub mod Answer
pub mod Streamed
pub mod Opened
pub mod Writes
pub mod Atomic
pub mod Ownership
pub mod Sse
pub mod Sample
mod Tests
use llm_chat_platform.Base.{
  ℕ, ◌==◌, Bool, true, false, not, List, [], ◌∷◌, ◌++◌, Option, none, some, Text, text_eq, codes,
  is_nil, if◌then◌else◌, strip, Result,
}
use llm_chat_platform.Base.Int.{ℤ}
use llm_chat_platform.Chat.{Role, ChatMessage, user, assistant}
use llm_chat_platform.Json.{Value}
use llm_chat_platform.Memory.{ChatMemoryContext, empty_memory, provider_metadata}
use llm_chat_platform.Rag.{RagSource, RagGenerationContext}
use llm_chat_platform.Budget.{BudgetOutcome, Enforced, enforce_added_context_cap}
use llm_chat_platform.Packer.{truncate}
use llm_chat_platform.Provider.{Failure, Outcome, ProviderPort}
use llm_chat_platform.Service.{ServiceError}
use llm_chat_platform.Cache.{CacheSettings, Conversions}

pub record RouteSettings : Type 0 where
  pub chat_rag_augmentation_enabled : Bool
  pub conversation_history_enabled : Bool
  pub ebm25_enabled : Bool
  pub chat_prompt_max_added_context_chars : ℕ
  pub max_assistant_chars : ℕ
  pub max_error_message_chars : ℕ
  pub chat_response_cache_ttl_s : ℕ

pub record ChatRequest : Type 0 where
  pub conversation_id : Option ℕ
  pub message : Text

-- What `uuid4` draws in a request, and the numbers that the identity column draws at the flushes.
pub record Fresh : Type 0 where
  pub conversation : ℕ
  pub user_message : ℕ
  pub assistant_message : ℕ
  pub user_sequence : ℕ
  pub assistant_sequence : ℕ
  pub usage_event : ℕ

pub record Conversation : Type 0 where
  pub id : ℕ
  pub tenant_id : Text

-- Readers order the rows of a conversation by `sequence`.
pub record Message : Type 0 where
  pub id : ℕ
  pub sequence : ℕ
  pub conversation_id : ℕ
  pub tenant_id : Text
  pub role : Role
  pub content : Text

pub data ChatStatus : Type 0 where
  success error : ChatStatus

pub record UsageEvent : Type 0 where
  pub id : ℕ
  pub provider : Text
  pub model_version : Text
  pub prompt_version : Text
  pub status : ChatStatus
  pub latency_ms : ℕ
  pub error_message : Option Text
  pub message_id : Option ℕ
  pub input_tokens : Option ℤ
  pub output_tokens : Option ℤ
  pub total_tokens : Option ℤ

pub record Db : Type 0 where
  pub conversations : List Conversation
  pub messages : List Message
  pub usage_events : List UsageEvent

-- Which calls of the database raise.
pub record Faults : Type 0 where
  pub conversation_flush : Bool
  pub conversation_load : Bool
  pub user_flush : Bool
  pub assistant_flush : Bool
  pub commit : Bool
  pub error_commit : Bool

-- How a transaction ends early: the 404, a failure of the service, or one of the database.
pub data Interruption : Type 0 where
  not_found : Interruption
  service_failed : ServiceError → Interruption
  db_failed : Interruption

pub data Tx (A : Type 0) : Type 0 where
  reached : A → Tx A
  interrupted : Interruption → Tx A

infixl 1 ◌>>=◌
abbrev pub ◌>>=◌ : {A B : Type 0} → Tx A → (A → Tx B) → Tx B
reached a >>= next = next a
interrupted e >>= next = interrupted e

abbrev pub unless_raised : {A : Type 0} → (raised : Bool) → A → Tx A
unless_raised true a = interrupted db_failed
unless_raised false a = reached a

-- What both paths do before they differ.
pub record Prepared : Type 0 where
  pub memory : ChatMemoryContext
  pub messages : List ChatMessage
  pub metadata : Value
  pub sources : List RagSource
  pub budget_outcome : Option BudgetOutcome

abbrev pub no_sources : RagGenerationContext
no_sources = record { sources = []; outcome = none }

abbrev pub prepared_of : ChatRequest → Enforced → Prepared
prepared_of request e = record {
  memory = e.memory;
  messages = e.memory.messages ++ (record { role = user; content = request.message } ∷ []);
  metadata = provider_metadata e.memory.retrieved_events e.rag.sources;
  sources = e.rag.sources;
  budget_outcome = e.outcome;
}

unfoldable pub prepare :
    RouteSettings → ChatRequest → RagGenerationContext → ChatMemoryContext → Prepared
unfolding enforce_added_context_cap provider_metadata
prepare s request rag memory = prepared_of request (
    enforce_added_context_cap (if s.conversation_history_enabled then memory else empty_memory)
      (if s.chat_rag_augmentation_enabled then rag else no_sources) request.message
      s.chat_prompt_max_added_context_chars)

pub data BypassReason : Type 0 where
  rag_augmentation ebm25_memory : BypassReason

-- `_cache_bypass_reason`
abbrev pub cache_bypass_reason : RouteSettings → Option BypassReason
cache_bypass_reason s =
    if s.chat_rag_augmentation_enabled
    then some rag_augmentation
    else if s.ebm25_enabled
    then some ebm25_memory
    else none

-- `db.get(Conversation, id)`
abbrev pub find_conversation : ℕ → List Conversation → Option Conversation
find_conversation id [] = none
find_conversation id (c ∷ cs) =
    let rest = find_conversation id cs in if c.id == id then some c else rest

abbrev pub check_owner : (tenant : Text) → Db → Option Conversation → Tx Db
check_owner tenant db none = interrupted not_found
check_owner tenant db (some c) =
    if text_eq c.tenant_id tenant then reached db else interrupted not_found

-- Creating the conversation, or loading it and checking its tenant.
unfoldable pub open_conversation : Faults → (tenant : Text) → Fresh → Option ℕ → Db → Tx Db
open_conversation faults tenant fresh none db = unless_raised faults.conversation_flush record db {
  conversations = db.conversations ++ (record { id = fresh.conversation; tenant_id = tenant } ∷ []);
}
open_conversation faults tenant fresh (some id) db = do
  found ← unless_raised faults.conversation_load (find_conversation id db.conversations)
  check_owner tenant db found

-- `payload.conversation_id or uuid4()`
abbrev pub conversation_of : Fresh → Option ℕ → ℕ
conversation_of fresh none = fresh.conversation
conversation_of fresh (some id) = id

-- `db.add(Message(...))` and the flush.
abbrev pub add_message : (raised : Bool) → Message → Db → Tx Db
add_message raised m db = unless_raised raised record db { messages = db.messages ++ (m ∷ []) }

abbrev pub message_of :
    (id sequence conversation : ℕ) → (tenant : Text) → Role → (content : Text) → Message
message_of id sequence conversation tenant role content = record {
  id = id;
  sequence = sequence;
  conversation_id = conversation;
  tenant_id = tenant;
  role = role;
  content = content;
}

abbrev pub add_usage : UsageEvent → Db → Db
add_usage e db = record db { usage_events = db.usage_events ++ (e ∷ []) }

-- `sanitize_error_message`, on the white space of the standard library.
abbrev pub sanitize_error_message : (is_space : ℕ → Bool) → Text → ℕ → Text
sanitize_error_message is_space message max_len =
    let s = strip is_space message in
    if is_nil s then truncate (codes "unknown error") max_len else truncate s max_len

-- The terminal points of a request, as its metrics name them.
pub data GenerationOutcome : Type 0 where
  ok_outcome not_found_outcome timeout_outcome error_outcome : GenerationOutcome

-- What a handler is given beside the request: the settings, the tenant, the draws and the faults,
-- the milliseconds that pass, the name that `_error_provider_name` finds, what Redis answers, the
-- resolver of providers, and the text of an exception that the service lets through or the database
-- raises.
pub record Environment : Type 0 where
  pub settings : RouteSettings
  pub cache_settings : CacheSettings
  pub sha256 : Text → Text
  pub convert : Conversions
  pub is_space : ℕ → Bool
  pub tenant : Text
  pub fresh : Fresh
  pub faults : Faults
  pub elapsed_ms : ℕ
  pub error_provider : Text
  pub redis : Text → Result (Option Text)
  pub resolve : (stream : Bool) → List ChatMessage → Value → Outcome ProviderPort
  pub failure_text : Failure → Text
  pub db_error_text : Text

-- A source as the response carries it.
pub record RagSourceOut : Type 0 where
  pub citation : Text
  pub document_id : Text
  pub chunk_id : Text
  pub rank : ℤ

abbrev pub source_out : RagSource → RagSourceOut
source_out s = record {
  citation = s.citation;
  document_id = s.document_id;
  chunk_id = s.chunk_id;
  rank = s.rank;
}

abbrev pub user_message : Environment → ChatRequest → Message
user_message env request =
    message_of env.fresh.user_message env.fresh.user_sequence
      (conversation_of env.fresh request.conversation_id) env.tenant user request.message

abbrev pub assistant_message : Environment → ChatRequest → (content : Text) → Message
assistant_message env request content =
    message_of env.fresh.assistant_message env.fresh.assistant_sequence
      (conversation_of env.fresh request.conversation_id) env.tenant assistant
      (truncate content env.settings.max_assistant_chars)
