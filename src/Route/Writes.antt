-- ===== src/Route/Writes.antt =====
-- What the transactions of the two paths write when they commit, and when they are interrupted.
use mathlib.Core.Path.{subst}
use llm_chat_platform.Base.{
  ◌≡◌, refl, inl, inr, Bool, false, [], ◌∷◌, ◌++◌, append_assoc, Option, none, some, Text, ap, ◌∙◌,
}
use llm_chat_platform.Provider.{ProviderResult}
use llm_chat_platform.Cache.{CacheEvent}
use llm_chat_platform.Service.{StreamChatResult, ChatServiceResult, Response, answered, failed, run}
use llm_chat_platform.Route.{
  BypassReason, ChatRequest, UsageEvent, Db, Tx, Prepared, Environment, not_found, reached,
  interrupted, ◌>>=◌, open_conversation, add_message, user_message, assistant_message, add_usage,
}
use llm_chat_platform.Route.Answer.{
  Executed, of_response, or_generate, is_cacheable, usage_of, transaction, execute, generate,
  bypass,
}
use llm_chat_platform.Route.Streamed.{persist, stream_usage, provider_part}
use llm_chat_platform.Route.Opened.{
  >>=-eq-reached, >>=-eq-interrupted, unless_raised-eq-reached, unless_raised-not_found, Finds,
  >>=-Finds, IsOpened, IsForeign, OpensIn, open_conversation-OpensIn, open_conversation-IsForeign,
}

of_response-Finds :
    (to_cache : Bool) (r : Response ChatServiceResult) → Finds (of_response to_cache r)
of_response-Finds to_cache (answered r) e = cc
of_response-Finds to_cache (failed x) e = cc

-- Both messages of the turn, in a conversation of the tenant, and one usage event.
pub record Commits (env : Environment) (request : ChatRequest) (content : Text) (db after : Db)
    : Type 0 where
  pub opens :
      IsOpened env.tenant env.fresh db.conversations request.conversation_id after.conversations
  pub appended :
      after.messages
      ≡ db.messages ++ (user_message env request ∷ assistant_message env request content ∷ [])
  pub usage : UsageEvent
  pub counted : after.usage_events ≡ db.usage_events ++ (usage ∷ [])
  pub about_answer : usage.message_id ≡ some env.fresh.assistant_message

module _ (env : Environment) (request : ChatRequest) (db : Db) where
  stream_usage-about :
      (p : Prepared) (r : Option ProviderResult)
      → (stream_usage env request p r).message_id ≡ some env.fresh.assistant_message
  stream_usage-about p none = refl
  stream_usage-about p (some r) = refl

  Commits-of :
      (content : Text) (usage : UsageEvent) (opened with_user with_both after : Db)
      → usage.message_id ≡ some env.fresh.assistant_message
      → OpensIn env.tenant env.fresh request.conversation_id db opened
      → add_message env.faults.user_flush (user_message env request) opened ≡ reached with_user
      → add_message env.faults.assistant_flush (assistant_message env request content) with_user
        ≡ reached with_both
      → add_usage usage with_both ≡ after
      → Commits env request content db after
  Commits-of content usage opened with_user with_both after about o u a last =
      let eu = unless_raised-eq-reached env.faults.user_flush _ u in
      let ea = unless_raised-eq-reached env.faults.assistant_flush _ a in
      let messages : after.messages
          ≡ (db.messages ++ (user_message env request ∷ []))
            ++ (assistant_message env request content ∷ []) =
        cc (o.same_messages) in
      record {
        opens =
            subst (λ cs. IsOpened env.tenant env.fresh db.conversations request.conversation_id cs)
              (cc) o.opens;
        appended = messages ∙ append_assoc db.messages _ _;
        usage = usage;
        counted = cc (o.same_usage);
        about_answer = about;
      }

  pub persist-Commits :
      (p : Prepared) (r : StreamChatResult) (after : Db)
      → persist env request p r db ≡ reached after
      → Commits env request r.assistant_message.content db after
  unfolding persist
  persist-Commits p r after e =
      let (opened, o, e1) =
        >>=-eq-reached
          (open_conversation env.faults env.tenant env.fresh request.conversation_id db) _ e in
      let (with_user, u, e2) = >>=-eq-reached (add_message env.faults.user_flush _ opened) _ e1 in
      let (with_both, a, e3) =
        >>=-eq-reached (add_message env.faults.assistant_flush _ with_user) _ e2 in
      Commits-of r.assistant_message.content
        (stream_usage env request p (provider_part r.provider_result)) opened with_user with_both
        after (stream_usage-about p (provider_part r.provider_result))
        (open_conversation-OpensIn env.faults env.tenant env.fresh db request.conversation_id opened
          o)
        u a (unless_raised-eq-reached env.faults.commit _ e3)

  pub transaction-Commits :
      (p : Prepared) (after : Db) (x : Executed)
      → transaction env request p db ≡ reached (after, x)
      → Commits env request x.result.assistant_message.content db after
        × (execute env request p (bypass env request p) ≡ reached x)
  unfolding transaction
  transaction-Commits p after x e =
      let (opened, o, e1) =
        >>=-eq-reached
          (open_conversation env.faults env.tenant env.fresh request.conversation_id db) _ e in
      let (with_user, u, e2) = >>=-eq-reached (add_message env.faults.user_flush _ opened) _ e1 in
      let (y, executed, e3) = >>=-eq-reached (execute env request p (bypass env request p)) _ e2 in
      let (with_both, a, e4) =
        >>=-eq-reached (add_message env.faults.assistant_flush _ with_user) _ e3 in
      let last = unless_raised-eq-reached env.faults.commit _ e4 in
      let same : y ≡ x = ap (λ t. t.1) last in
      subst
        (λ z.
          Commits env request z.result.assistant_message.content db after
          × (execute env request p (bypass env request p) ≡ reached z))
        same
        (
          Commits-of y.result.assistant_message.content
              (usage_of env request p y.result.provider_result) opened with_user with_both after
              refl
              (open_conversation-OpensIn env.faults env.tenant env.fresh db request.conversation_id
                opened o)
              u a (ap (λ t. t.0) last),
          executed,
        )

  -- Nothing but the conversation is ever not found.
  after_open-not_found :
      {A : Type 0} (next : Db → Tx A)
      → ((opened : Db) → next opened ≡ interrupted not_found → ⊥)
      → (open_conversation env.faults env.tenant env.fresh request.conversation_id db >>= next)
        ≡ interrupted not_found
      → IsForeign env.tenant request.conversation_id db.conversations
  after_open-not_found next never e =
      elim (>>=-eq-interrupted
        (open_conversation env.faults env.tenant env.fresh request.conversation_id db) next e) [
          | inl early ↦
              open_conversation-IsForeign env.faults env.tenant env.fresh db request.conversation_id
                early
          | inr (opened, o, late) ↦ absurd (never opened late)
        ]

  generate-Finds : (p : Prepared) → Finds (generate env request p)
  unfolding generate
  generate-Finds p =
      of_response-Finds (is_cacheable (bypass env request p))
        (run (env.resolve false p.messages p.metadata)).0

  or_generate-Finds :
      (p : Prepared) (cached : Option ChatServiceResult × CacheEvent)
      → Finds (or_generate env request p cached)
  or_generate-Finds p (none, event) e = generate-Finds p e
  or_generate-Finds p (some r, event) e = cc

  execute-Finds :
      (p : Prepared) (reason : Option BypassReason) → Finds (execute env request p reason)
  unfolding execute
  execute-Finds p (some reason) = generate-Finds p
  execute-Finds p none = or_generate-Finds p _

  pub persist-IsForeign :
      (p : Prepared) (r : StreamChatResult)
      → persist env request p r db ≡ interrupted not_found
      → IsForeign env.tenant request.conversation_id db.conversations
  unfolding persist
  persist-IsForeign p r = after_open-not_found _ λ opened.
      >>=-Finds _ _ (unless_raised-not_found env.faults.user_flush _) λ with_user.
        >>=-Finds _ _ (unless_raised-not_found env.faults.assistant_flush _)
          λ with_both. unless_raised-not_found env.faults.commit _

  pub transaction-IsForeign :
      (p : Prepared)
      → transaction env request p db ≡ interrupted not_found
      → IsForeign env.tenant request.conversation_id db.conversations
  unfolding transaction
  transaction-IsForeign p = after_open-not_found _ λ opened.
      >>=-Finds _ _ (unless_raised-not_found env.faults.user_flush _) λ with_user.
        >>=-Finds _ _ (execute-Finds p (bypass env request p)) λ x.
          >>=-Finds _ _ (unless_raised-not_found env.faults.assistant_flush _)
            λ with_both. unless_raised-not_found env.faults.commit _
