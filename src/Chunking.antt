-- ===== src/Chunking.antt =====
-- Splitting a text into overlapping windows: `split_recursive` of app/services/rag_chunking.py. Sizes
-- are natural numbers, so a negative one, which is refused like 0, does not occur.
pub mod Windows
mod Tests
use llm_chat_platform.Base.{
  Bool, ℕ, zero, suc, ◌+◌, ◌-◌, min, List, [], ◌∷◌, Text, length, take, drop, is_nil, strip, ltb,
  leb, ◌==◌, if◌then◌else◌, Result, ok, err, value_error,
}

abbrev pub default_chunk_size : ℕ
default_chunk_size = 500

abbrev pub default_overlap : ℕ
default_overlap = 75

module _ (is_space : ℕ → Bool) where
  -- `stripped[start:end].strip()`
  abbrev pub piece_of : (stripped : Text) (chunk_size start : ℕ) → Text
  piece_of stripped chunk_size start =
      let end = min (start + chunk_size) (length stripped) in
      strip is_space (take (end - start) (drop start stripped))

  -- `if piece: chunks.append(piece)`, in front of the later pieces.
  abbrev pub append_piece : Text → List Text → List Text
  append_piece piece rest = if is_nil piece then rest else piece ∷ rest

  -- The `while`, from `start` on, with the rounds that it may still take.
  unfoldable pub split_from : (rounds : ℕ) (stripped : Text) (chunk_size step start : ℕ) → List Text
  split_from zero stripped chunk_size step start = []
  split_from (suc rounds) stripped chunk_size step start =
      let later = split_from rounds stripped chunk_size step (start + step) in
      let rest = if leb (length stripped) (start + chunk_size) then [] else later in
      if ltb start (length stripped)
      then append_piece (piece_of stripped chunk_size start) rest
      else []

  unfoldable pub split_recursive : Text → (chunk_size overlap : ℕ) → Result (List Text)
  unfolding split_from
  split_recursive text chunk_size overlap =
      let stripped = strip is_space text in
      if is_nil stripped
      then ok []
      else if leb chunk_size 0
      then err value_error
      else if leb chunk_size overlap
      then err value_error
      else if leb (length stripped) chunk_size
      then ok (stripped ∷ [])
      else ok (split_from (length stripped) stripped chunk_size (chunk_size - overlap) 0)
