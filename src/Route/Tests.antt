-- ===== src/Route/Tests.antt =====
-- Requests against a small database, and the theorems there.
use llm_chat_platform.Base.{arith, ◌≡◌, refl, true, List, [], ◌∷◌, map, none, codes}
use llm_chat_platform.Chat.{user, assistant}
use llm_chat_platform.Memory.{empty_memory}
use llm_chat_platform.Route.{Db, Environment, no_sources, prepare}
use llm_chat_platform.Route.Answer.{http_not_found, chat}
use llm_chat_platform.Route.Streamed.{Frame, token, error_frame, done_frame, event_generator}
use llm_chat_platform.Route.Atomic.{
  IsAtomic, IsDelivered, chat-IsAtomic, event_generator-IsDelivered,
}
use llm_chat_platform.Route.Ownership.{
  Reach, start, later, in_one_piece, streamed, empty_db, publish, IsPaired, Reach-IsPaired,
}
use llm_chat_platform.Route.Sse.{body_text, read_events}
use llm_chat_platform.Route.Sse.Wire.{read_events-body_text}
use llm_chat_platform.Route.Sample.{no_faults, world, first_request, next_request, acme, asked}

abbrev after_first : Db
after_first = (chat acme first_request (asked first_request) empty_db).db

told : map (λ m. m.content) after_first.messages ≡ codes "hi" ∷ codes "hello" ∷ []
unfolding chat prepare
told = refl

-- Another tenant does not reach the conversation.
refused_other :
    (chat (world (codes "other") 9 no_faults) next_request (asked next_request) after_first).reply
    ≡ http_not_found
unfolding chat prepare
refused_other = refl

-- A commit that raises leaves the rows as they were.
rolled_back :
    (chat
      (world (codes "acme") 9 (record no_faults { commit = true }))
      next_request
      (asked next_request)
      after_first).db.messages
    ≡ after_first.messages
unfolding chat prepare
rolled_back = refl

abbrev stream_frames : List Frame
stream_frames =
    (event_generator (world (codes "acme") 8 no_faults) next_request (asked next_request)
      after_first).frames

frames_sent :
    stream_frames ≡ token (codes "hello\n") ∷ token (codes " there") ∷ done_frame 7 8 8 [] ∷ []
unfolding event_generator chat prepare
frames_sent = refl

-- A carriage return ends a line for the client, though not for `_sse`: the rest of the data is lost.
return_lost :
    read_events (body_text (λ id. codes "u") 0 (token (codes "a\rb") ∷ []))
    ≡ (codes "token", codes "a") ∷ []
unfolding read_events body_text
return_lost = refl

-- Two requests that run at the same time, both on the conversation as the first request left it.
abbrev tenth : Environment
tenth = world (codes "acme") 10 no_faults

abbrev eleventh : Environment
eleventh = world (codes "acme") 11 no_faults

abbrev after_tenth : Db
after_tenth =
    publish after_first (event_generator tenth next_request (asked next_request) after_first).db
      after_first

abbrev after_both : Db
after_both =
    publish after_first (chat eleventh next_request (asked next_request) after_first).db after_tenth

-- By their numbers 7, 9, 10, 11, 12, 13 both user messages come before both answers.
numbers_drawn : map (λ m. m.sequence) after_both.messages ≡ 7 ∷ 9 ∷ 10 ∷ 12 ∷ 11 ∷ 13 ∷ []
unfolding chat event_generator prepare
numbers_drawn = refl

roles_told :
    map (λ m. m.role) after_both.messages
    ≡ user ∷ assistant ∷ user ∷ assistant ∷ user ∷ assistant ∷ []
unfolding chat event_generator prepare
roles_told = refl

reached_first : Reach after_first
unfolding chat prepare
reached_first = later start (
    in_one_piece acme first_request no_sources empty_memory empty_db
      (([], refl), ([], refl), ([], refl)) (omega arith))

reached_tenth : Reach after_tenth
unfolding chat event_generator prepare
reached_tenth = later reached_first (
    streamed tenth next_request no_sources empty_memory after_first
      (([], refl), ([], refl), ([], refl)) (omega arith))

reached_both : Reach after_both
unfolding chat event_generator prepare
reached_both = later reached_tenth (
    in_one_piece eleventh next_request no_sources empty_memory after_first
      (([], refl), (_, refl), (_, refl)) (omega arith))

chat-IsAtomic_example :
    IsAtomic acme first_request
      (asked first_request)
      empty_db
      (chat acme first_request (asked first_request) empty_db)
chat-IsAtomic_example = chat-IsAtomic acme first_request (asked first_request) empty_db

event_generator-IsDelivered_example :
    IsDelivered (world (codes "acme") 8 no_faults) next_request (asked next_request) after_first (
      event_generator
        (world (codes "acme") 8 no_faults)
        next_request
        (asked next_request)
        after_first)
event_generator-IsDelivered_example =
    event_generator-IsDelivered (world (codes "acme") 8 no_faults) next_request (asked next_request)
      after_first

Reach-IsPaired_example : IsPaired after_both.conversations after_both.messages
Reach-IsPaired_example = Reach-IsPaired after_both reached_both

read_events-body_text_example :
    read_events (
      body_text
        (λ id. codes "u")
        0
        (token (codes "a\n b") ∷ error_frame (codes "not_found") none ∷ []))
    ≡ (codes "token", codes "a\n b") ∷ (codes "error", codes "{\"error_kind\":\"not_found\"}") ∷ []
unfolding body_text
read_events-body_text_example =
    read_events-body_text (λ id. codes "u") 0
      (token (codes "a\n b") ∷ error_frame (codes "not_found") none ∷ []) refl
