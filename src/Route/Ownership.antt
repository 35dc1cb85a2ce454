-- ===== src/Route/Ownership.antt =====
-- The committed rows that requests lead to, also where they run at the same time. A table is the rows
-- in the order of their commits. A request runs on what was committed when it read, `seen`, and its
-- own rows come to stand behind what the others have committed by the time of its commit.
use mathlib.Core.Path.{subst}
use llm_chat_platform.Base.{
  ℕ, ◌<◌, drop, length, StartsWith, ◌≡◌, refl, sym, ap, ◌∙◌, inl, inr, Bool-cases, List, [], ◌∷◌,
  ◌++◌, append-nil, Option, some, Text, ◌==◌, ==_iff, Member, here, there, Member-append_left,
  Member-append_right,
}
use llm_chat_platform.Chat.{Role, user, assistant}
use llm_chat_platform.Memory.{ChatMemoryContext}
use llm_chat_platform.Rag.{RagGenerationContext}
use llm_chat_platform.Route.{
  ChatRequest, Conversation, Message, Db, Environment, find_conversation, prepare, Prepared,
  user_message, assistant_message, conversation_of,
}
use llm_chat_platform.Route.Answer.{Answered, chat}
use llm_chat_platform.Route.Streamed.{Streamed, event_generator}
use llm_chat_platform.Route.Opened.{IsOpened, created, joined}
use llm_chat_platform.Route.Writes.{Commits}
use llm_chat_platform.Route.Atomic.{
  IsAtomic, IsDelivered, Keeps, persisted, unknown, dropped, completed, broken_off, unknown_twice,
  chat-IsAtomic, event_generator-IsDelivered,
}

-- An earlier state of the committed tables.
abbrev pub IsSeen : (seen db : Db) → Type 0
IsSeen seen db =
    StartsWith seen.conversations db.conversations
    × StartsWith seen.messages db.messages
    × StartsWith seen.usage_events db.usage_events

-- A commit: the rows that a request that saw `seen` has added.
abbrev pub publish : (seen result db : Db) → Db
publish seen result db = record {
  conversations = db.conversations ++ drop (length seen.conversations) result.conversations;
  messages = db.messages ++ drop (length seen.messages) result.messages;
  usage_events = db.usage_events ++ drop (length seen.usage_events) result.usage_events;
}

-- The end of one request, in one piece or streamed, whatever the rest of the world does. The answer
-- is flushed behind its user message, so its number is drawn later; others may draw in between.
pub data Step (db : Db) : Db → Type 0 where
  in_one_piece :
      (env : Environment) (request : ChatRequest) (rag : RagGenerationContext)
      (memory : ChatMemoryContext) (seen : Db)
      → IsSeen seen db
      → env.fresh.user_sequence < env.fresh.assistant_sequence
      → Step db
          (publish seen (chat env request (prepare env.settings request rag memory) seen).db db)
  streamed :
      (env : Environment) (request : ChatRequest) (rag : RagGenerationContext)
      (memory : ChatMemoryContext) (seen : Db)
      → IsSeen seen db
      → env.fresh.user_sequence < env.fresh.assistant_sequence
      → Step db (
          publish seen
            (event_generator env request (prepare env.settings request rag memory) seen).db
            db)

abbrev pub empty_db : Db
empty_db = record { conversations = []; messages = []; usage_events = [] }

pub data Reach : Db → Type 0 where
  start : Reach empty_db
  later : {db after : Db} → Reach db → Step db after → Reach after

-- A message of the conversation, and of its tenant.
abbrev pub IsIn : Conversation → Role → Message → Type 0
IsIn c role m = (m.conversation_id ≡ c.id) × (m.tenant_id ≡ c.tenant_id) × (m.role ≡ role)

-- Rows in turns: a user message, then its answer, numbered later, in one conversation of the table.
pub data IsPaired (cs : List Conversation) : List Message → Type 0 where
  no_turn : IsPaired cs []
  turn :
      {ms : List Message} (c : Conversation) (u a : Message)
      → IsPaired cs ms
      → Member c cs
      → IsIn c user u
      → IsIn c assistant a
      → u.sequence < a.sequence
      → IsPaired cs (ms ++ (u ∷ a ∷ []))

IsPaired-append :
    {cs : List Conversation} (ds : List Conversation) {ms : List Message}
    → IsPaired cs ms
    → IsPaired (cs ++ ds) ms
IsPaired-append ds no_turn = no_turn
IsPaired-append ds (turn c u a before m hu ha later_number) =
    turn c u a (IsPaired-append ds before) (Member-append_left ds m) hu ha later_number

find_conversation-Member :
    (id : ℕ) (cs : List Conversation) (c : Conversation)
    → find_conversation id cs ≡ some c
    → Member c cs × (c.id ≡ id)
find_conversation-Member id [] c h = absurd cc
find_conversation-Member id (d ∷ cs) c h = elim (Bool-cases (d.id == id)) [
  | inl same ↦
      let e : Option.some d ≡ some c = rw same at h in
      let eq : d ≡ c = cc in
      subst (λ x. Member x (d ∷ cs) × (x.id ≡ id)) eq (here, (==_iff d.id id).0 same)
  | inr other ↦ let (m, e) = find_conversation-Member id cs c (rw other at h) in (there m, e)
]

drop-length_append {ℓ} : {A : Type ℓ} (xs ys : List A) → drop (length xs) (xs ++ ys) ≡ ys
drop-length_append [] ys = refl
drop-length_append (x ∷ xs) ys = drop-length_append xs ys

-- What a table gains by a commit.
published {ℓ} :
    {A : Type ℓ} (xs seen result ys : List A)
    → result ≡ seen ++ ys
    → xs ++ drop (length seen) result ≡ xs ++ ys
published xs seen result ys e = rw (e, drop-length_append seen ys) refl

published_nothing {ℓ} :
    {A : Type ℓ} (xs seen result : List A) → result ≡ seen → xs ++ drop (length seen) result ≡ xs
published_nothing xs seen result e =
    published xs seen result [] (e ∙ sym (append-nil seen)) ∙ append-nil xs

Member-StartsWith {ℓ} :
    {A : Type ℓ} (x : A) (xs ys : List A) → StartsWith xs ys → Member x xs → Member x ys
Member-StartsWith x xs ys (r, e) m = subst (λ zs. Member x zs) (sym e) (Member-append_left r m)

-- The conversation of the request, in the table that its commit leaves.
opened-Member :
    (env : Environment) (id : Option ℕ) (cs seen after : List Conversation)
    → StartsWith seen cs
    → IsOpened env.tenant env.fresh seen id after
    → (c : Conversation) × Member c (cs ++ drop (length seen) after)
      × (c.id ≡ conversation_of env.fresh id)
      × (c.tenant_id ≡ env.tenant)
opened-Member env id cs seen after before created =
    let c : Conversation = record { id = env.fresh.conversation; tenant_id = env.tenant } in
    let eq = published cs seen (seen ++ (c ∷ [])) (c ∷ []) refl in
    (c, subst (λ zs. Member c zs) (sym eq) (Member-append_right cs here), refl, refl)
opened-Member env id cs seen after before (joined i c h own) =
    let (m, e) = find_conversation-Member i seen c h in
    (c, Member-append_left _ (Member-StartsWith c seen cs before m), e, own)

Commits-IsPaired :
    (env : Environment) (request : ChatRequest) (content : Text) (db seen result : Db)
    → IsSeen seen db
    → env.fresh.user_sequence < env.fresh.assistant_sequence
    → Commits env request content seen result
    → IsPaired db.conversations db.messages
    → IsPaired (publish seen result db).conversations (publish seen result db).messages
Commits-IsPaired env request content db seen result before numbers w paired =
    let (c, m, id, own) =
      opened-Member env request.conversation_id db.conversations seen.conversations
        result.conversations before.0 w.opens in
    let eq = published db.messages seen.messages result.messages _ w.appended in
    subst (λ ms. IsPaired (publish seen result db).conversations ms) (sym eq)
      (turn c (user_message env request) (assistant_message env request content)
        (IsPaired-append _ paired) m (sym id, sym own, refl) (sym id, sym own, refl) numbers)

Keeps-IsPaired :
    (db seen result : Db)
    → Keeps seen result
    → IsPaired db.conversations db.messages
    → IsPaired (publish seen result db).conversations (publish seen result db).messages
Keeps-IsPaired db seen result (cs, ms) paired =
    let eq = published_nothing db.messages seen.messages result.messages ms in
    subst (λ ms. IsPaired (publish seen result db).conversations ms) (sym eq)
      (IsPaired-append _ paired)

Db-Keeps : (seen result : Db) → result ≡ seen → Keeps seen result
Db-Keeps seen result e = (ap (λ d. d.conversations) e, ap (λ d. d.messages) e)

module _ (env : Environment) (request : ChatRequest) (p : Prepared) (db seen : Db)
    (before : IsSeen seen db) (numbers : env.fresh.user_sequence < env.fresh.assistant_sequence)
    (paired : IsPaired db.conversations db.messages) where
  IsAtomic-IsPaired :
      (a : Answered)
      → IsAtomic env request p seen a
      → IsPaired (publish seen a.db db).conversations (publish seen a.db db).messages
  IsAtomic-IsPaired a (persisted x response e w r1 r2 r3 r4 r5) =
      Commits-IsPaired env request _ db seen a.db before numbers w paired
  IsAtomic-IsPaired a (unknown k r1 r2 r3) = Keeps-IsPaired db seen a.db k paired
  IsAtomic-IsPaired a (dropped response k r1 r2 r3 r4) = Keeps-IsPaired db seen a.db k paired

  IsDelivered-IsPaired :
      (s : Streamed)
      → IsDelivered env request p seen s
      → IsPaired (publish seen s.db db).conversations (publish seen s.db db).messages
  IsDelivered-IsPaired s (completed session r e1 e2 e3 w e4) =
      Commits-IsPaired env request _ db seen s.db before numbers w paired
  IsDelivered-IsPaired s (broken_off chunks kind retryable same e) =
      Keeps-IsPaired db seen s.db (Db-Keeps seen s.db same) paired
  IsDelivered-IsPaired s (unknown_twice chunks same e raised foreign) =
      Keeps-IsPaired db seen s.db (Db-Keeps seen s.db same) paired

Step-IsPaired :
    (db after : Db)
    → Step db after
    → IsPaired db.conversations db.messages
    → IsPaired after.conversations after.messages
Step-IsPaired db after (in_one_piece env request rag memory seen before numbers) paired =
    IsAtomic-IsPaired env request _ db seen before numbers paired _
      (chat-IsAtomic env request _ seen)
Step-IsPaired db after (streamed env request rag memory seen before numbers) paired =
    IsDelivered-IsPaired env request _ db seen before numbers paired _
      (event_generator-IsDelivered env request _ seen)

-- Whatever requests ask and whatever fails, also where they run at the same time, each on what was
-- committed when it read: the committed rows, from the empty database on and in the order of the
-- commits, are made of whole turns. A turn is a user message and an answer in the same conversation,
-- which exists and belongs to the tenant of both. The answer has the later number, given that the
-- identity column numbers a later flush of a request higher; by their numbers, messages of other
-- requests may stand between the two.
pub Reach-IsPaired : (db : Db) → Reach db → IsPaired db.conversations db.messages
Reach-IsPaired db start = no_turn
Reach-IsPaired db (later {db = before} r step) =
    Step-IsPaired before db step (Reach-IsPaired before r)
