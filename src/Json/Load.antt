-- ===== src/Json/Load.antt =====
-- Python's `json.loads`: a recursive descent on the characters. A call below another costs a unit of
-- fuel.
use llm_chat_platform.Base.{
  ℕ, zero, suc, ◌+◌, ◌*◌, Bool, true, false, [], ◌∷◌, Option, none, some, Text, text_eq, length,
  is_nil, ◌==◌, if◌then◌else◌,
}
use llm_chat_platform.Json.{Value, Items, Entries, str, list, dict, nil, cons, end, entry}
use llm_chat_platform.Json.Scan.{
  Reading, literals, malformed, out_of_fuel, read, read_scalar, read_string, skip_spaces, ◌>>=◌,
}

-- `dict(pairs)`: a key keeps its first place and takes its last value.
abbrev pub last_value : Text → Value → Entries → Value
last_value k v end = v
last_value k v (entry j w es) =
    let later = last_value k w es in
    let same = last_value k v es in if text_eq j k then later else same

abbrev pub without_key : Text → Entries → Entries
without_key k end = end
without_key k (entry j w es) =
    let rest = without_key k es in if text_eq j k then rest else entry j w rest

unfoldable pub from_pairs : Entries → Entries
from_pairs end = end
from_pairs (entry k v es) = entry k (last_value k v es) (without_key k (from_pairs es))

pub data Opening : Type 0 where
  quote brace bracket no_opening : Opening

abbrev pub opening : Text → Opening
opening [] = no_opening
opening (c ∷ t) =
    if c == 34 then quote else if c == 123 then brace else if c == 91 then bracket else no_opening

abbrev pub tail : Text → Text
tail [] = []
tail (c ∷ t) = t

abbrev pub starts : ℕ → Text → Bool
starts mark [] = false
starts mark (c ∷ t) = c == mark

pub data Separation : Type 0 where
  closed more neither : Separation

abbrev pub separation : (close : ℕ) → Text → Separation
separation close t = if starts close t then closed else if starts 44 t then more else neither

unfoldable mutual
  unfolding read_string read_scalar from_pairs

  pub read_value : ℕ → Text → Reading Value
  read_value zero t = out_of_fuel
  read_value (suc f) t = elim (opening t) [
    | quote ↦ do (s, rest) ← read_string (tail t); read (str s) rest
    | brace ↦ do (es, rest) ← read_dict f (skip_spaces (tail t)); read (dict (from_pairs es)) rest
    | bracket ↦ do (vs, rest) ← read_list f (skip_spaces (tail t)); read (list vs) rest
    | no_opening ↦ read_scalar literals t
  ]

  pub read_list : ℕ → Text → Reading Items
  read_list zero t = out_of_fuel
  read_list (suc f) t = elim (starts 93 t) [ true ↦ read nil (tail t) | false ↦ read_items f t ]

  pub read_items : ℕ → Text → Reading Items
  read_items zero t = out_of_fuel
  read_items (suc f) t = do
    (v, after) ← read_value f t
    elim (separation 93 (skip_spaces after)) [
      | closed ↦ read (cons v nil) (tail (skip_spaces after))
      | more ↦ do
        (vs, rest) ← read_items f (skip_spaces (tail (skip_spaces after)))
        read (cons v vs) rest
      | neither ↦ malformed
    ]

  pub read_dict : ℕ → Text → Reading Entries
  read_dict zero t = out_of_fuel
  read_dict (suc f) t = elim (starts 125 t) [ true ↦ read end (tail t) | false ↦ read_entries f t ]

  -- One pair and what follows it; its key starts here.
  pub read_entries : ℕ → Text → Reading Entries
  read_entries zero t = out_of_fuel
  read_entries (suc f) t = elim (starts 34 t) [
    | false ↦ malformed
    | true ↦ do
      (k, colon) ← read_string (tail t)
      elim (starts 58 (skip_spaces colon)) [
        | false ↦ malformed
        | true ↦ do
          (v, after) ← read_value f (skip_spaces (tail (skip_spaces colon)))
          elim (separation 125 (skip_spaces after)) [
            | closed ↦ read (entry k v end) (tail (skip_spaces after))
            | more ↦ do
              (es, rest) ← read_entries f (skip_spaces (tail (skip_spaces after)))
              read (entry k v es) rest
            | neither ↦ malformed
          ]
      ]
  ]

abbrev pub nothing_left : Value × Text → Option Value
nothing_left (v, rest) = if is_nil (skip_spaces rest) then some v else none

abbrev pub loaded : Reading Value → Option Value
loaded (read v rest) = nothing_left (v, rest)
loaded malformed = none
loaded out_of_fuel = none

-- `none` is a `JSONDecodeError`.
unfoldable pub loads : Text → Option Value
unfolding read_value
loads t = loaded (read_value (2 * length t + 1) (skip_spaces t))
