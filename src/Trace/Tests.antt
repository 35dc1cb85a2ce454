-- ===== src/Trace/Tests.antt =====
-- The trace of a short conversation, and the theorems there.
use llm_chat_platform.Base.{
  ◌≡◌, refl, ℕ, Bool, List, [], ◌∷◌, Option, some, none, Text, codes, ok, err, unbound_local, ◌==◌,
}
use llm_chat_platform.Chat.{user, assistant}
use llm_chat_platform.Trace.{
  Message, UsageEvent, Reconstruction, reconstruct_pair, reconstruct_by_request_id,
}
use llm_chat_platform.Trace.Pair.{
  IsPaired, IsUnpaired, reconstruct_pair-IsPaired, reconstruct_pair-IsUnpaired,
}
use llm_chat_platform.Trace.Report.{IsTraced, reconstruct_by_request_id-IsTraced}

abbrev question : Message
question = record { id = 1; role = user; content = codes "hi" }

abbrev reply : Message
reply = record { id = 2; role = assistant; content = codes "hello" }

abbrev messages : List Message
messages = question ∷ reply ∷ []

explicit :
    reconstruct_pair messages (some 2)
    ≡ ok (record { input_message = some question; output_message = some reply })
unfolding reconstruct_pair
explicit = refl

implicit_pair :
    reconstruct_pair messages none
    ≡ ok (record { input_message = none; output_message = some reply })
unfolding reconstruct_pair
implicit_pair = refl

dangling : reconstruct_pair messages (some 7) ≡ err unbound_local
unfolding reconstruct_pair
dangling = refl

-- The events are in lower case already.
abbrev same : Text → Text
same t = t

abbrev blank : ℕ → Bool
blank c = c == 32

abbrev events : List UsageEvent
events =
    record { status = some (codes "error"); conversation_id = none; message_id = none }
    ∷ record { status = some (codes "success"); conversation_id = some 9; message_id = some 2 }
    ∷ []

abbrev find_conversation : ℕ → Option ℕ
find_conversation i = some i

abbrev messages_of : ℕ → List Message
messages_of i = messages

reconstruct_pair-IsPaired_example : IsPaired messages 2 (reconstruct_pair messages (some 2))
reconstruct_pair-IsPaired_example = reconstruct_pair-IsPaired messages 2

reconstruct_pair-IsUnpaired_example :
    (r : Reconstruction) × (reconstruct_pair messages none ≡ ok r) × IsUnpaired messages r
reconstruct_pair-IsUnpaired_example = reconstruct_pair-IsUnpaired messages

reconstruct_by_request_id-IsTraced_example :
    IsTraced same blank find_conversation messages_of events
      (reconstruct_by_request_id same blank find_conversation messages_of events)
reconstruct_by_request_id-IsTraced_example =
    reconstruct_by_request_id-IsTraced same blank find_conversation messages_of events
