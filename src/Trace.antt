-- ===== src/Trace.antt =====
-- The report that ties a request to its conversation: app/services/trace.py. What the database
-- returns is an argument: the events of the request, newest first, the conversation if it is found,
-- and its messages by sequence. An output schema keeps the fields that are modelled here.
pub mod Pair
pub mod Report
mod Tests
use llm_chat_platform.Base.{
  ◌≡◌, refl, ℕ, suc, Bool, true, false, not, ◌&&◌, ◌||◌, Option, none, some, List, [], ◌∷◌, ◌++◌,
  Text, text_eq, codes, length, is_nil, ltb, ◌==◌, if◌then◌else◌, Result, ok, err, value_error,
  unbound_local, ◌>>=◌, ◌>>◌, guard, strip,
}
use llm_chat_platform.Chat.{Role, system, user, assistant}

-- A message; its role is the database's `MessageRole`, an enumeration over `str`.
pub record Message : Type 0 where
  pub id : ℕ
  pub role : Role
  pub content : Text

pub record UsageEvent : Type 0 where
  pub status : Option Text
  pub conversation_id : Option ℕ
  pub message_id : Option ℕ

-- `_norm_str_enum(role)` is the lower-case value, and `str(role).lower()` has the class before it.
abbrev pub normal_role : Role → Text
normal_role system = codes "system"
normal_role user = codes "user"
normal_role assistant = codes "assistant"

abbrev pub lower_str_role : Role → Text
lower_str_role r = codes "messagerole." ++ normal_role r

abbrev pub is_normal_user : Message → Bool
is_normal_user m = text_eq (normal_role m.role) (codes "user")

abbrev pub is_str_user : Message → Bool
is_str_user m = text_eq (lower_str_role m.role) (codes "user")

abbrev pub is_normal_assistant : Message → Bool
is_normal_assistant m = text_eq (normal_role m.role) (codes "assistant")

-- The first message with the id, and the messages before it, the nearest first.
unfoldable pub find_by_id :
    ℕ → (before : List Message) → List Message → Option (Message × List Message)
find_by_id i before [] = none
find_by_id i before (m ∷ ms) =
    let rest = find_by_id i (m ∷ before) ms in if m.id == i then some (m, before) else rest

-- A walk backward: the first message of the list, nearest first, that passes the test.
unfoldable pub walk_back : (Message → Bool) → List Message → Option Message
walk_back test [] = none
walk_back test (m ∷ ms) = let rest = walk_back test ms in if test m then some m else rest

-- The last assistant message, and the messages before it, the nearest first.
unfoldable pub last_assistant : (nearest_first : List Message) → Option (Message × List Message)
last_assistant [] = none
last_assistant (m ∷ before) =
    let rest = last_assistant before in if is_normal_assistant m then some (m, before) else rest

unfoldable pub reversed : List Message → List Message → List Message
reversed [] done = done
reversed (m ∷ ms) done = reversed ms (m ∷ done)

pub record Reconstruction : Type 0 where
  pub input_message : Option Message
  pub output_message : Option Message

abbrev pub pair_with : (Message → Bool) → Option (Message × List Message) → Reconstruction
pair_with test none = record { input_message = none; output_message = none }
pair_with test (some (m, before)) = record {
  input_message = walk_back test before;
  output_message = some m;
}

-- Where no message has the id, `out_idx` is read before it is bound.
abbrev pub explicit_pair : Option (Message × List Message) → Result Reconstruction
explicit_pair none = err unbound_local
explicit_pair (some found) = ok (pair_with is_normal_user (some found))

-- `_reconstruct_pair`
unfoldable pub reconstruct_pair :
    List Message → (output_message_id : Option ℕ) → Result Reconstruction
unfolding find_by_id walk_back last_assistant reversed
reconstruct_pair messages none = ok (pair_with is_str_user (last_assistant (reversed messages [])))
reconstruct_pair messages (some i) = explicit_pair (find_by_id i [] messages)

-- The checks of a report, with their outcome; a check of several texts keeps the count or the list.
pub data Check : Type 0 where
  usage_event_found : Bool → Check
  single_usage_event : Bool → (count : ℕ) → Check
  success_has_fks : Bool → (missing : List Text) → Check
  conversation_found : Bool → Check
  messages_loaded : Bool → (count : ℕ) → Check
  input_output_resolved : Bool → Check

pub data Problem : Type 0 where
  multiple_events missing_fks no_conversation no_messages no_pair : Problem

pub record Coherence : Type 0 where
  pub checks : List Check
  pub warnings : List Problem
  pub errors : List Problem

abbrev pub add_checks : Coherence → List Check → (warnings errors : List Problem) → Coherence
add_checks c checks warnings errors = record {
  checks = c.checks ++ checks;
  warnings = c.warnings ++ warnings;
  errors = c.errors ++ errors;
}

pub record TraceReport : Type 0 where
  pub events : List UsageEvent
  pub primary_event : UsageEvent
  pub conversation : Option ℕ
  pub messages : Option (List Message)
  pub reconstruction : Option Reconstruction
  pub coherence : Coherence

module _ (lower : Text → Text) (is_space : ℕ → Bool) where
  -- `_select_primary_event`: `str(None)` is "None".
  abbrev pub is_str_success : UsageEvent → Bool
  is_str_success e =
      text_eq (lower (elim e.status [ none ↦ codes "None" | some s ↦ s ])) (codes "success")

  unfoldable pub select_primary_event : (newest : UsageEvent) → List UsageEvent → UsageEvent
  select_primary_event newest [] = newest
  select_primary_event newest (e ∷ es) =
      let rest = select_primary_event newest es in if is_str_success e then e else rest

  abbrev pub has_dot : Text → Bool
  has_dot [] = false
  has_dot (d ∷ u) = d == 46 || has_dot u

  -- `s.split(".")[-1]`
  abbrev pub after_last_dot : Text → Text
  after_last_dot [] = []
  after_last_dot (c ∷ t) =
      let rest = after_last_dot t in if has_dot t then rest else if c == 46 then t else c ∷ t

  abbrev pub norm_str_enum : Option Text → Text
  norm_str_enum none = []
  norm_str_enum (some s) = after_last_dot (lower (strip is_space s))

  abbrev pub missing_of : UsageEvent → List Text
  missing_of e =
      elim e.conversation_id [ none ↦ codes "conversation_id" ∷ [] | some i ↦ [] ]
      ++ elim e.message_id [ none ↦ codes "message_id" ∷ [] | some i ↦ [] ]

  -- Steps 1 to 3: what the events alone show.
  unfoldable pub event_checks : List UsageEvent → (primary : UsageEvent) → Coherence
  event_checks events primary =
      let many = ltb 1 (length events) in
      let success = text_eq (norm_str_enum primary.status) (codes "success") in
      let missing = if success then missing_of primary else [] in
      record {
        checks =
            usage_event_found true
            ∷ single_usage_event (not many) (length events)
            ∷ success_has_fks (is_nil missing) missing
            ∷ [];
        warnings = if many then multiple_events ∷ [] else [];
        errors = if is_nil missing then [] else missing_fks ∷ [];
      }

  abbrev pub is_complete : Reconstruction → Bool
  is_complete r = elim r.input_message [
    | none ↦ false
    | some m ↦ elim r.output_message [ none ↦ false | some n ↦ true ]
  ]

  -- Step 5, on what `_reconstruct_pair` gives.
  abbrev pub with_pair :
      Coherence
      → UsageEvent
      → (conversation : ℕ) → List Message
      → (events : List UsageEvent) → Result Reconstruction
      → Result TraceReport
  with_pair c primary conversation messages events (err e) = err e
  with_pair c primary conversation messages events (ok pair) = ok record {
    events = events;
    primary_event = primary;
    conversation = some conversation;
    messages = some messages;
    reconstruction = some pair;
    coherence =
        add_checks c
          (conversation_found true
            ∷ messages_loaded true (length messages)
            ∷ input_output_resolved (is_complete pair)
            ∷ [])
          (if is_complete pair then [] else no_pair ∷ []) [];
  }

  -- Steps 4 and 5, for a conversation that is found.
  unfoldable pub with_messages :
      Coherence
      → UsageEvent
      → (conversation : ℕ) → List Message
      → (events : List UsageEvent) → Result TraceReport
  unfolding reconstruct_pair
  with_messages c primary conversation [] events = ok record {
    events = events;
    primary_event = primary;
    conversation = some conversation;
    messages = some [];
    reconstruction = none;
    coherence =
        add_checks c (conversation_found true ∷ messages_loaded false 0 ∷ []) (no_messages ∷ []) [];
  }
  with_messages c primary conversation (m ∷ ms) events =
      with_pair c primary conversation (m ∷ ms) events
        (reconstruct_pair (m ∷ ms) primary.message_id)

  -- Step 4, on the conversation that the primary event's id finds.
  unfoldable pub with_conversation :
      Coherence
      → UsageEvent
      → List Message
      → (events : List UsageEvent) → (conversation : Option ℕ) → Result TraceReport
  unfolding with_messages
  with_conversation c primary messages events none = ok record {
    events = events;
    primary_event = primary;
    conversation = none;
    messages = none;
    reconstruction = none;
    coherence = add_checks c (conversation_found false ∷ []) [] (no_conversation ∷ []);
  }
  with_conversation c primary messages events (some conversation) =
      with_messages c primary conversation messages events

  -- Step 4, on the primary event's conversation id.
  unfoldable pub resolve_conversation :
      (find_conversation : ℕ → Option ℕ)
      → (messages_of : ℕ → List Message) → Coherence
      → UsageEvent
      → (events : List UsageEvent) → (conversation_id : Option ℕ) → Result TraceReport
  unfolding with_conversation
  resolve_conversation find_conversation messages_of c primary events none = ok record {
    events = events;
    primary_event = primary;
    conversation = none;
    messages = none;
    reconstruction = none;
    coherence = add_checks c (conversation_found true ∷ []) [] [];
  }
  resolve_conversation find_conversation messages_of c primary events (some i) =
      with_conversation c primary (messages_of i) events (find_conversation i)

  -- `reconstruct_by_request_id`, on the events of the request and the two tables.
  unfoldable pub reconstruct_by_request_id :
      (find_conversation : ℕ → Option ℕ)
      → (messages_of : ℕ → List Message) → List UsageEvent
      → Result TraceReport
  unfolding select_primary_event event_checks resolve_conversation
  reconstruct_by_request_id find_conversation messages_of [] = err value_error
  reconstruct_by_request_id find_conversation messages_of (e ∷ es) =
      let primary = select_primary_event e (e ∷ es) in
      resolve_conversation find_conversation messages_of (event_checks (e ∷ es) primary) primary
        (e ∷ es) primary.conversation_id
