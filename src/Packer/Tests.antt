-- ===== src/Packer/Tests.antt =====
-- Runs of the packer, and its theorems at a concrete window.
use llm_chat_platform.Base.{◌-◌, ◌≡◌, refl, true, List, [], ◌∷◌, codes, arith}
use llm_chat_platform.Chat.{ChatMessage, user, assistant}
use llm_chat_platform.Packer.{pack_recent_window}
use llm_chat_platform.Packer.Bounds.{IsPacked, pack_recent_window-IsPacked}

abbrev window : List ChatMessage
window =
    record { role = user; content = codes "hello" }
    ∷ record { role = assistant; content = codes "hi" }
    ∷ record { role = user; content = codes "why" }
    ∷ record { role = assistant; content = codes "because" }
    ∷ []

-- The older turn goes, and the answer of the last one is cut.
pack_cuts : pack_recent_window window 9 2 ≡ record {
  messages =
      record { role = user; content = codes "why" }
      ∷ record { role = assistant; content = codes "beca" }
      ∷ [];
  truncated = true;
}
unfolding pack_recent_window
pack_cuts = refl

pack_recent_window-IsPacked_example :
    IsPacked (9 - 2) window (pack_recent_window window 9 2).messages
pack_recent_window-IsPacked_example = pack_recent_window-IsPacked window 9 2 (omega arith)
