-- ===== src/Turns/Tests.antt =====
-- Runs of the grouping and of the snap, and their theorems at a concrete history.
use llm_chat_platform.Base.{
  ◌≡◌, refl, List, [], ◌∷◌, codes, flat_map, All, ok, err, index_error, arith,
}
use llm_chat_platform.Chat.{user, assistant, system}
use llm_chat_platform.History.{HistoryMessage}
use llm_chat_platform.Turns.{
  WindowPartition, messages_of, group_turns, partition_at, build_materialized_window,
}
use llm_chat_platform.Turns.Grouping.{IsUnit, Separated, group_turns_total}
use llm_chat_platform.Turns.Snap.{IsWindow, build_materialized_window_snaps}
use llm_chat_platform.Turns.Partition.{IsPartition, build_materialized_window-IsPartition}
use llm_chat_platform.Turns.Uncovered.{build_materialized_window_uncovered}

abbrev q1 : HistoryMessage
q1 = record { sequence = 1; role = user; content = codes "q1" }

abbrev lone : HistoryMessage
lone = record { sequence = 2; role = system; content = codes "note" }

abbrev q2 : HistoryMessage
q2 = record { sequence = 5; role = user; content = codes "q2" }

abbrev a2 : HistoryMessage
a2 = record { sequence = 6; role = assistant; content = codes "a2" }

abbrev rows : List HistoryMessage
rows = q1 ∷ lone ∷ q2 ∷ a2 ∷ []

-- The bound kept only the answer, and the snap brings its question back.
window_snaps : build_materialized_window rows (a2 ∷ []) ≡ ok (partition_at (group_turns rows) 2 1)
unfolding build_materialized_window
window_snaps = refl

group_turns_total_example :
    (flat_map messages_of (group_turns rows) ≡ rows)
    × All IsUnit (group_turns rows)
    × Separated (group_turns rows)
group_turns_total_example = group_turns_total rows

build_materialized_window_snaps_example :
    (p : WindowPartition) × (build_materialized_window rows (a2 ∷ []) ≡ ok p)
    × IsWindow rows (a2 ∷ []) p
build_materialized_window_snaps_example =
    build_materialized_window_snaps (q1 ∷ lone ∷ q2 ∷ []) [] a2 (omega arith)

build_materialized_window-IsPartition_example :
    IsPartition (group_turns rows) (partition_at (group_turns rows) 2 1)
build_materialized_window-IsPartition_example =
    build_materialized_window-IsPartition rows (a2 ∷ []) (partition_at (group_turns rows) 2 1)
      window_snaps

build_materialized_window_uncovered_example :
    build_materialized_window (q1 ∷ lone ∷ []) (q2 ∷ []) ≡ err index_error
build_materialized_window_uncovered_example =
    build_materialized_window_uncovered (q1 ∷ lone ∷ []) [] q2 (λ e. cc e) (omega arith)
