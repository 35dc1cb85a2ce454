-- ===== src/Dependency/Tests.antt =====
-- A request whose older turn is retrieved, and the theorem there. The tokenizer makes each code
-- point a token, and the scores count them.
use llm_chat_platform.Base.{
  ◌≡◌, refl, ℕ, ◌+◌, true, false, List, [], ◌∷◌, ◌++◌, map, some, Text, codes, leb,
}
use llm_chat_platform.Chat.{user, assistant}
use llm_chat_platform.History.{HistoryMessage}
use llm_chat_platform.Bm25.{Scores, rank_events, query_tokens, pack_selected_events}
use llm_chat_platform.Dependency.{MemorySettings, rows, okay, get_chat_memory_context}
use llm_chat_platform.Dependency.Delivered.{IsBounded, get_chat_memory_context-IsBounded}

abbrev letters : Text → List Text
letters t = map (λ c. c ∷ []) t

abbrev counts : Scores
counts = record {
  Score = ℕ;
  zero_score = 0;
  add = λ a b. a + b;
  term_score = λ count df frequency document_length corpus_length. frequency;
  is_finite = λ a. leb a 100;
  at_least = λ a b. leb b a;
}

abbrev settings : MemorySettings
settings = record {
  conversation_history_enabled = true;
  assembler = record { max_messages = 2; max_chars = 100 };
  max_rows = 50;
  max_added_context_chars = 12;
  ebm25_enabled = true;
}

abbrev history : List HistoryMessage
history =
    record { sequence = 1; role = user; content = codes "abc" }
    ∷ record { sequence = 2; role = assistant; content = codes "d" }
    ∷ record { sequence = 4; role = user; content = codes "xy" }
    ∷ record { sequence = 5; role = assistant; content = codes "z" }
    ∷ []

remembered :
    get_chat_memory_context counts letters settings (codes "a") (some 9) (rows history) ≡ record {
      context = record {
        messages =
            record { role = user; content = codes "xy" }
            ∷ record { role = assistant; content = codes "z" }
            ∷ [];
        truncated = true;
        history_row_cap_reached = false;
        retrieved_events = record { event_id = 1; content = codes "abc" ++ (10 ∷ codes "d") } ∷ [];
      };
      outcome = some okay;
      selected_count = some 1;
    }
unfolding get_chat_memory_context rank_events query_tokens pack_selected_events
remembered = refl

get_chat_memory_context-IsBounded_example :
    IsBounded 12
      (get_chat_memory_context counts letters settings (codes "a") (some 9) (rows history)).context
get_chat_memory_context-IsBounded_example =
    get_chat_memory_context-IsBounded counts letters settings (codes "a") (some 9) (rows history)
