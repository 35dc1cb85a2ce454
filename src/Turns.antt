-- ===== src/Turns.antt =====
-- Turn grouping, snapping and the role-shape filter: app/core/domain/conversation_turns.py, and
-- the retrieval corpus over it: app/core/domain/retrieval_corpus.py.
pub mod Grouping
pub mod Snap
pub mod Partition
pub mod Uncovered
mod Tests
use llm_chat_platform.Base.{
  ℕ, zero, suc, Bool, true, false, not, ◌&&◌, ◌||◌, List, [], ◌∷◌, ◌++◌, Option, none, some, Text,
  length, drop, take, flat_map, select, is_nil, leb, ltb, ◌==◌, if◌then◌else◌, Result, ok, err,
  index_error, ◌>>=◌, codes,
}
use llm_chat_platform.Chat.{is_user, is_assistant}
use llm_chat_platform.History.{HistoryMessage}

pub record TurnUnit : Type 0 where
  pub messages : List HistoryMessage

abbrev pub messages_of : TurnUnit → List HistoryMessage
messages_of u = u.messages

-- `self.messages[0].sequence`
abbrev pub head_sequence : List HistoryMessage → Result ℕ
head_sequence [] = err index_error
head_sequence (m ∷ ms) = ok m.sequence

abbrev pub first_sequence : TurnUnit → Result ℕ
first_sequence u = head_sequence u.messages

abbrev pub is_turn : List HistoryMessage → Bool
is_turn (m ∷ n ∷ []) = is_user m.role && is_assistant n.role
is_turn _ = false

abbrev pub is_well_formed : TurnUnit → Bool
is_well_formed u = is_turn u.messages

-- `"\n".join(...)`
abbrev pub join_lines : List HistoryMessage → Text
join_lines [] = []
join_lines (m ∷ []) = m.content
join_lines (m ∷ n ∷ ms) = m.content ++ (10 ∷ join_lines (n ∷ ms))

abbrev pub document_text : TurnUnit → Text
document_text u = join_lines u.messages

abbrev pub unit_of : List HistoryMessage → TurnUnit
unit_of ms = record { messages = ms }

unfoldable pub group_turns : List HistoryMessage → List TurnUnit
group_turns [] = []
group_turns (m ∷ []) = unit_of (m ∷ []) ∷ []
group_turns (m ∷ n ∷ ms) =
    let paired = group_turns ms in
    let single = group_turns (n ∷ ms) in
    if is_user m.role && is_assistant n.role
    then unit_of (m ∷ n ∷ []) ∷ paired
    else unit_of (m ∷ []) ∷ single

pub record WindowPartition : Type 0 where
  pub window : List HistoryMessage
  pub window_units : List TurnUnit
  pub excluded_units : List TurnUnit
  pub grouped : List TurnUnit
  pub snapped_in_turns : ℕ

-- `any(message.sequence == sequence for message in unit.messages)`
abbrev pub covers : ℕ → List HistoryMessage → Bool
covers s [] = false
covers s (m ∷ ms) = m.sequence == s || covers s ms

-- The first loop of `_index_of_unit_covering`, from index `i`; `none` if no unit covers.
unfoldable pub index_covering : ℕ → List TurnUnit → ℕ → Option ℕ
index_covering s [] i = none
index_covering s (u ∷ us) i =
    let rest = index_covering s us (suc i) in if covers s u.messages then some i else rest

-- The second loop, and the fallback after it.
unfoldable pub index_after : ℕ → List TurnUnit → ℕ → Result ℕ
index_after s [] i = ok i
index_after s (u ∷ us) i =
    let rest = index_after s us (suc i) in
    first_sequence u >>= λ first. if leb s first then ok i else rest

unfoldable pub index_of_unit_covering : List TurnUnit → ℕ → Result ℕ
unfolding index_covering index_after
index_of_unit_covering grouped s = elim (index_covering s grouped 0) [
  | some i ↦ ok i
  | none ↦ index_after s grouped 0
]

-- `snapped_span[0]`
abbrev pub head_unit : List TurnUnit → Result TurnUnit
head_unit [] = err index_error
head_unit (u ∷ us) = ok u

-- The partition that a snap index gives.
abbrev pub partition_at : List TurnUnit → ℕ → ℕ → WindowPartition
partition_at grouped snap_index snapped_in =
    let span = drop snap_index grouped in
    let units = select is_well_formed span in
    record {
      window = flat_map messages_of units;
      window_units = units;
      excluded_units = take snap_index grouped ++ select (λ u. not (is_well_formed u)) span;
      grouped = grouped;
      snapped_in_turns = snapped_in;
    }

-- `build_materialized_window` after its early return, from the sequence of the first bounded
-- message.
unfoldable pub snap_window : List TurnUnit → ℕ → Result WindowPartition
unfolding index_of_unit_covering
snap_window grouped bound_start = do
  snap_index ← index_of_unit_covering grouped bound_start
  let span = drop snap_index grouped
  first_unit ← head_unit span
  first ← first_sequence first_unit
  ok (partition_at grouped snap_index (if ltb first bound_start then 1 else 0))

abbrev pub no_window : List TurnUnit → WindowPartition
no_window grouped = record {
  window = [];
  window_units = [];
  excluded_units = grouped;
  grouped = grouped;
  snapped_in_turns = 0;
}

abbrev pub window_from : List TurnUnit → List HistoryMessage → Result WindowPartition
window_from [] bounded = ok (no_window [])
window_from (u ∷ us) [] = ok (no_window (u ∷ us))
window_from (u ∷ us) (b ∷ bs) = snap_window (u ∷ us) b.sequence

unfoldable pub build_materialized_window :
    (all_messages bounded_messages : List HistoryMessage) → Result WindowPartition
unfolding group_turns snap_window
build_materialized_window all_messages bounded_messages =
    window_from (group_turns all_messages) bounded_messages

-- `CorpusEvent`, and `RetrievalCorpus.from_partition`.
pub record CorpusEvent : Type 0 where
  pub event_id : ℕ
  pub unit : TurnUnit

unfoldable pub corpus_events : List TurnUnit → Result (List CorpusEvent)
corpus_events [] = ok []
corpus_events (u ∷ us) = do
  first ← first_sequence u
  rest ← corpus_events us
  ok (record { event_id = first; unit = u } ∷ rest)

unfoldable pub corpus_from_partition : WindowPartition → Result (List CorpusEvent)
unfolding corpus_events
corpus_from_partition p = corpus_events p.excluded_units
