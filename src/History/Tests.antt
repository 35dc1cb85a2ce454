-- ===== src/History/Tests.antt =====
-- Runs of the assembler, and its theorems at concrete histories.
use llm_chat_platform.Base.{◌≡◌, ◌≢◌, ◌⊎◌, refl, true, List, [], ◌∷◌, codes, ok, err, integrity}
use llm_chat_platform.Chat.{user, assistant}
use llm_chat_platform.History.{HistoryMessage, Assembler, AssembledHistory, assemble}
use llm_chat_platform.History.Bounds.{StrictlyIncreasing, IsAssembled, assemble_iff}

abbrev rows : List HistoryMessage
rows =
    record { sequence = 3; role = user; content = codes "first question" }
    ∷ record { sequence = 4; role = assistant; content = codes "answer" }
    ∷ record { sequence = 8; role = user; content = codes "again" }
    ∷ []

abbrev small : Assembler
small = record { max_messages = 2; max_chars = 8 }

-- Two messages pass the first bound, eleven characters do not pass the second.
assemble-small :
    assemble small (ok rows)
    ≡ ok (record {
      messages = record { sequence = 8; role = user; content = codes "again" } ∷ [];
      total_available = 3;
      truncated = true;
    })
unfolding assemble
assemble-small = refl

abbrev disordered : List HistoryMessage
disordered =
    record { sequence = 3; role = user; content = [] }
    ∷ record { sequence = 3; role = assistant; content = [] }
    ∷ []

assemble-disordered : assemble small (ok disordered) ≡ err (integrity 3 3)
unfolding assemble
assemble-disordered = refl

assemble_iff_example :
    ((h : AssembledHistory) × (assemble small (ok rows) ≡ ok h) × IsAssembled small rows h)
    ⊎ (¬ (StrictlyIncreasing rows) × ((h : AssembledHistory) → assemble small (ok rows) ≢ ok h))
assemble_iff_example = assemble_iff small rows
