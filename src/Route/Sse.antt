-- ===== src/Route/Sse.antt =====
-- The frames on the wire: `_sse` and `_sse_json` of app/api/routes/chat.py. The reader beside them is
-- the event stream of the HTML standard, on which the browser's `EventSource` stands.
pub mod Wire
use llm_chat_platform.Base.{
  join_lf, ℕ, Bool, true, false, List, [], ◌∷◌, ◌++◌, map, Option, none, some, Text, codes, text_eq,
  is_nil, ◌==◌, if◌then◌else◌,
}
use llm_chat_platform.Base.Int.{ℤ}
use llm_chat_platform.Json.{Value, bool, int, str, list, dict, items_of, end, field}
use llm_chat_platform.Json.Ascii.{dumps_ascii}
use llm_chat_platform.Route.{RagSourceOut}
use llm_chat_platform.Route.Streamed.{Frame, token, error_frame, done_frame}

-- `data.split("\n")`
abbrev pub put_first : ℕ → List Text → List Text
put_first c [] = (c ∷ []) ∷ []
put_first c (l ∷ ls) = (c ∷ l) ∷ ls

unfoldable pub split_lf : Text → List Text
split_lf [] = [] ∷ []
split_lf (c ∷ t) = let rest = split_lf t in if c == 10 then [] ∷ rest else put_first c rest

abbrev pub data_line : Text → Text
data_line line = codes "data: " ++ line

unfoldable pub sse : (event payload : Text) → Text
unfolding split_lf join_lf
sse event payload =
    codes "event: "
    ++ (event ++ (10 ∷ (join_lf (map data_line (split_lf payload)) ++ (10 ∷ 10 ∷ []))))

unfoldable pub sse_json : (event : Text) → Value → Text
unfolding sse dumps_ascii
sse_json event payload = sse event (dumps_ascii payload)

module _ (uuid_text : ℕ → Text) (request_id : ℕ) where
  abbrev pub source_value : RagSourceOut → Value
  source_value s = dict (
      field "citation" (str s.citation) (
        field "document_id" (str s.document_id)
          (field "chunk_id" (str s.chunk_id) (field "rank" (int s.rank) end))))

  -- The event and the data that a `yield` of the generator names.
  abbrev pub frame_parts : Frame → Text × Text
  frame_parts (token chunk) = (codes "token", chunk)
  frame_parts (error_frame kind none) =
      (codes "error", dumps_ascii (dict (field "error_kind" (str kind) end)))
  frame_parts (error_frame kind (some retryable)) = (
    codes "error",
    dumps_ascii (dict (field "error_kind" (str kind) (field "retryable" (bool retryable) end))),
  )
  frame_parts (done_frame conversation user assistant sources) = (
    codes "done",
    dumps_ascii (
        dict (
          field "request_id" (str (uuid_text request_id)) (
            field "conversation_id" (str (uuid_text conversation)) (
              field "user_message_id" (str (uuid_text user)) (
                field "assistant_message_id" (str (uuid_text assistant)) (
                  field "status" (str (codes "success"))
                    (field "sources" (list (items_of (map source_value sources))) end))))))),
  )

  unfoldable pub frame_text : Frame → Text
  unfolding sse dumps_ascii
  frame_text f = sse (frame_parts f).0 (frame_parts f).1

  -- The body of the response.
  unfoldable pub body_text : List Frame → Text
  unfolding frame_text
  body_text [] = []
  body_text (f ∷ fs) = frame_text f ++ body_text fs

-- The reader. Every line end is a line feed to it.
abbrev pub unify_ends : Text → Text
unify_ends [] = []
unify_ends (c ∷ []) = (if c == 13 then 10 else c) ∷ []
unify_ends (c ∷ d ∷ t) =
    let pair = 10 ∷ unify_ends t in
    let rest = unify_ends (d ∷ t) in
    if c == 13 then (if d == 10 then pair else 10 ∷ rest) else c ∷ rest

abbrev pub drop_space : Text → Text
drop_space [] = []
drop_space (c ∷ t) = if c == 32 then t else c ∷ t

-- A line's field and value.
abbrev pub field_of : Text → Text × Text
field_of [] = ([], [])
field_of (c ∷ t) =
    let (name, value) = field_of t in if c == 58 then ([], drop_space t) else (c ∷ name, value)

pub record Block : Type 0 where
  pub event : Text
  pub lines : List Text

abbrev pub no_block : Block
no_block = record { event = []; lines = [] }

abbrev pub put_field : Block → Text × Text → Block
put_field b (name, value) =
    if text_eq name (codes "event")
    then record b { event = value }
    else if text_eq name (codes "data")
    then record b { lines = b.lines ++ (value ∷ []) }
    else b

-- A block without data is not dispatched.
abbrev pub dispatch : Block → List (Text × Text) → List (Text × Text)
dispatch b later = if is_nil b.lines then later else (b.event, join_lf b.lines) ∷ later

-- The text behind the last line feed is not a line yet.
unfoldable pub read_blocks : Block → List Text → List (Text × Text)
unfolding join_lf
read_blocks b [] = []
read_blocks b (l ∷ []) = []
read_blocks b ([] ∷ m ∷ ls) = dispatch b (read_blocks no_block (m ∷ ls))
read_blocks b ((c ∷ l) ∷ m ∷ ls) = read_blocks (put_field b (field_of (c ∷ l))) (m ∷ ls)

unfoldable pub read_events : Text → List (Text × Text)
unfolding split_lf read_blocks
read_events t = read_blocks no_block (split_lf (unify_ends t))
