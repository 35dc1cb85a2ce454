-- ===== src/Route/Answer.antt =====
-- The answer in one piece: `chat` of app/api/routes/chat.py without `stream`. Everything is written
-- in one transaction; after a failure the database has its old rows and at most one usage event.
use llm_chat_platform.Base.{
  ℕ, Bool, true, false, List, [], map, Option, none, some, Text, codes, if◌then◌else◌,
}
use llm_chat_platform.Base.Int.{ℤ, pos}
use llm_chat_platform.Packer.{truncate}
use llm_chat_platform.Provider.{ProviderResult}
use llm_chat_platform.Service.{
  Response, ChatServiceResult, answered, failed, provider_timeout, provider_execution, let_through,
  run,
}
use llm_chat_platform.Cache.{CacheEvent, Write, cache_get, cache_set}
use llm_chat_platform.Route.{
  ChatRequest, ChatStatus, UsageEvent, Db, Tx, Prepared, BypassReason, RagSourceOut,
  GenerationOutcome, Environment, success, error, not_found, service_failed, db_failed, reached,
  interrupted, ◌>>=◌, unless_raised, cache_bypass_reason, open_conversation, conversation_of,
  add_message, user_message, assistant_message, add_usage, source_out, sanitize_error_message,
  ok_outcome, not_found_outcome, timeout_outcome, error_outcome,
}

pub record ChatResponse : Type 0 where
  pub conversation_id : ℕ
  pub user_message_id : Option ℕ
  pub assistant_message_id : Option ℕ
  pub assistant_content : Option Text
  pub sources : List RagSourceOut
  pub status : ChatStatus
  pub error_message : Option Text

pub data Reply : Type 0 where
  http_not_found : Reply
  responded : ChatResponse → Reply

pub record Answered : Type 0 where
  pub db : Db
  pub reply : Reply
  pub cache_write : Option Write
  pub outcome : GenerationOutcome

-- The service's result, and whether it is to be cached after the commit.
pub record Executed : Type 0 where
  pub result : ChatServiceResult
  pub to_cache : Bool

abbrev pub is_cacheable : Option BypassReason → Bool
is_cacheable none = true
is_cacheable (some reason) = false

abbrev pub of_response : (to_cache : Bool) → Response ChatServiceResult → Tx Executed
of_response to_cache (answered r) = reached (record { result = r; to_cache = to_cache })
of_response to_cache (failed e) = interrupted (service_failed e)

-- `_as_int_or_zero`
abbrev pub as_int_or_zero : Option ℤ → ℤ
as_int_or_zero (some (pos n)) = pos n
as_int_or_zero _ = pos 0

module _ (env : Environment) (request : ChatRequest) (p : Prepared) where
  abbrev pub bypass : Option BypassReason
  bypass = cache_bypass_reason env.settings

  unfoldable pub generate : Tx Executed
  unfolding run
  generate = of_response (is_cacheable bypass) (run (env.resolve false p.messages p.metadata)).0

  abbrev pub or_generate : Option ChatServiceResult × CacheEvent → Tx Executed
  or_generate (none, event) = generate
  or_generate (some r, event) = reached (record { result = r; to_cache = false })

  -- Step 3 of the transaction, by the reason to pass the cache by.
  unfoldable pub execute : Option BypassReason → Tx Executed
  unfolding generate cache_get
  execute (some reason) = generate
  execute none =
      or_generate
        (cache_get env.sha256 env.cache_settings env.convert env.redis p.messages env.tenant)

  abbrev pub usage_of : ProviderResult → UsageEvent
  usage_of r = record {
    id = env.fresh.usage_event;
    provider = r.provider;
    model_version = r.model_version;
    prompt_version = r.prompt_version;
    status = success;
    latency_ms = env.elapsed_ms;
    error_message = none;
    message_id = some env.fresh.assistant_message;
    input_tokens = some (as_int_or_zero r.input_tokens);
    output_tokens = some (as_int_or_zero r.output_tokens);
    total_tokens = some (as_int_or_zero r.total_tokens);
  }

  -- The one transaction: the rows that it commits, and the result behind them.
  unfoldable pub transaction : Db → Tx (Db × Executed)
  unfolding open_conversation execute
  transaction db = do
    opened ← open_conversation env.faults env.tenant env.fresh request.conversation_id db
    with_user ← add_message env.faults.user_flush (user_message env request) opened
    executed ← execute bypass
    with_both ←
        add_message env.faults.assistant_flush
          (assistant_message env request executed.result.assistant_message.content) with_user
    unless_raised env.faults.commit
        (add_usage (usage_of executed.result.provider_result) with_both, executed)

  -- `UsageEvent` of a failure, in a transaction of its own.
  abbrev pub failed_usage : (message : Text) → UsageEvent
  failed_usage message = record {
    id = env.fresh.usage_event;
    provider = env.error_provider;
    model_version = codes "local";
    prompt_version = codes "v0";
    status = error;
    latency_ms = env.elapsed_ms;
    error_message =
        some (sanitize_error_message env.is_space message env.settings.max_error_message_chars);
    message_id = none;
    input_tokens = none;
    output_tokens = none;
    total_tokens = none;
  }

  abbrev pub refused : (shown logged : Text) → GenerationOutcome → Db → Answered
  refused shown logged outcome db = record {
    db = if env.faults.error_commit then db else add_usage (failed_usage logged) db;
    reply = responded record {
      conversation_id = conversation_of env.fresh request.conversation_id;
      user_message_id = none;
      assistant_message_id = none;
      assistant_content = none;
      sources = [];
      status = error;
      error_message =
          some (sanitize_error_message env.is_space shown env.settings.max_error_message_chars);
    };
    cache_write = none;
    outcome = outcome;
  }

  abbrev pub saved : Db → Executed → Answered
  saved db e = record {
    db = db;
    reply = responded record {
      conversation_id = conversation_of env.fresh request.conversation_id;
      user_message_id = some env.fresh.user_message;
      assistant_message_id = some env.fresh.assistant_message;
      assistant_content =
          some (truncate e.result.assistant_message.content env.settings.max_assistant_chars);
      sources = map source_out p.sources;
      status = success;
      error_message = none;
    };
    cache_write =
        if e.to_cache
        then some (
            cache_set env.sha256 env.cache_settings env.settings.chat_response_cache_ttl_s
              p.messages e.result env.tenant)
        else none;
    outcome = ok_outcome;
  }

  -- The `except` clauses.
  abbrev pub conclude : Db → Tx (Db × Executed) → Answered
  conclude db (reached (committed, e)) = saved committed e
  conclude db (interrupted not_found) = record {
    db = db;
    reply = http_not_found;
    cache_write = none;
    outcome = not_found_outcome;
  }
  conclude db (interrupted (service_failed provider_timeout)) =
      refused (codes "provider timeout") (codes "provider timeout") timeout_outcome db
  conclude db (interrupted (service_failed (provider_execution message))) =
      refused message message error_outcome db
  conclude db (interrupted (service_failed (let_through e))) =
      refused (codes "internal error") (env.failure_text e) error_outcome db
  conclude db (interrupted db_failed) =
      refused (codes "internal error") env.db_error_text error_outcome db

  unfoldable pub chat : Db → Answered
  unfolding transaction
  chat db = conclude db (transaction db)
