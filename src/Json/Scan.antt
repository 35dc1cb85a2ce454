-- ===== src/Json/Scan.antt =====
-- Reading the parts of a JSON text that hold no others, as Python's `json.loads` does: white space,
-- strings, numbers and literals. A string is read by an automaton; a pair of escaped surrogates is
-- one character.
use llm_chat_platform.Base.{
  ℕ, zero, suc, ◌+◌, ◌-◌, ◌*◌, Bool, true, false, ◌&&◌, ◌||◌, List, [], ◌∷◌, ◌++◌, Option, none,
  some, Text, codes, is_nil, ltb, leb, ◌==◌, if◌then◌else◌,
}
use llm_chat_platform.Base.Int.{ℤ, pos, negsuc}
use llm_chat_platform.Json.{Value, null, bool, int, float}

-- What a reader makes of the text: a value with the text that is left, a `JSONDecodeError`, or no
-- fuel, which has no counterpart in Python.
pub data Reading (A : Type 0) : Type 0 where
  read : A → Text → Reading A
  malformed out_of_fuel : Reading A

module _ {A B : Type 0} where
  infixl 1 ◌>>=◌
  abbrev pub ◌>>=◌ : Reading A → (A × Text → Reading B) → Reading B
  read a rest >>= next = next (a, rest)
  malformed >>= next = malformed
  out_of_fuel >>= next = out_of_fuel

abbrev pub is_space : ℕ → Bool
is_space c = c == 32 || c == 9 || c == 10 || c == 13

abbrev pub skip_spaces : Text → Text
skip_spaces [] = []
skip_spaces (c ∷ t) = let rest = skip_spaces t in if is_space c then rest else c ∷ t

-- One character of a literal: itself, or a unit of UTF-16 that was escaped.
pub data Piece : Type 0 where
  plain unit : ℕ → Piece

abbrev pub is_high : ℕ → Bool
is_high u = leb 55296 u && leb u 56319

abbrev pub is_low : ℕ → Bool
is_low u = leb 56320 u && leb u 57343

abbrev pub joined : ℕ → ℕ → ℕ
joined u w = 65536 + ((u - 55296) * 1024 + (w - 56320))

unfoldable pub join_pieces : List Piece → Text
join_pieces [] = []
join_pieces (plain c ∷ ps) = c ∷ join_pieces ps
join_pieces (unit u ∷ []) = u ∷ []
join_pieces (unit u ∷ plain c ∷ ps) = u ∷ c ∷ join_pieces ps
join_pieces (unit u ∷ unit w ∷ ps) =
    let pair = joined u w ∷ join_pieces ps in
    let apart = u ∷ join_pieces (unit w ∷ ps) in if is_high u && is_low w then pair else apart

abbrev pub hex_value : ℕ → Option ℕ
hex_value c =
    if leb 48 c && leb c 57
    then some (c - 48)
    else if leb 97 c && leb c 102
    then some (c - 87)
    else if leb 65 c && leb c 70
    then some (c - 55)
    else none

abbrev pub short_escape : ℕ → Option ℕ
short_escape c =
    if c == 34 || c == 92 || c == 47
    then some c
    else if c == 98
    then some 8
    else if c == 102
    then some 12
    else if c == 110
    then some 10
    else if c == 114
    then some 13
    else if c == 116
    then some 9
    else none

pub data ScanState : Type 0 where
  normal escaped : ScanState
  in_hex : (left value : ℕ) → ScanState

pub data ScanStep : Type 0 where
  go : Option Piece → ScanState → ScanStep
  stop broken : ScanStep

abbrev pub after_short : Option ℕ → ScanStep
after_short none = broken
after_short (some d) = go (some (plain d)) normal

abbrev pub after_digit : (left value : ℕ) → Option ℕ → ScanStep
after_digit left value none = broken
after_digit zero value (some d) = go (some (unit (16 * value + d))) normal
after_digit (suc left) value (some d) = go none (in_hex left (16 * value + d))

abbrev pub scan_step : ScanState → ℕ → ScanStep
scan_step normal c =
    if c == 34
    then stop
    else if c == 92
    then go none escaped
    else if ltb c 32
    then broken
    else go (some (plain c)) normal
scan_step escaped c = if c == 117 then go none (in_hex 3 0) else after_short (short_escape c)
scan_step (in_hex left value) c = after_digit left value (hex_value c)

abbrev pub put_piece : Option Piece → Reading (List Piece) → Reading (List Piece)
put_piece (some p) (read ps rest) = read (p ∷ ps) rest
put_piece none (read ps rest) = read ps rest
put_piece p malformed = malformed
put_piece p out_of_fuel = out_of_fuel

unfoldable pub scan : ScanState → Text → Reading (List Piece)
scan s [] = malformed
scan s (c ∷ t) = elim (scan_step s c) [
  | go p next ↦ put_piece p (scan next t)
  | stop ↦ read [] t
  | broken ↦ malformed
]

-- A string, behind its opening quote.
unfoldable pub read_string : Text → Reading Text
unfolding scan join_pieces
read_string t = do (ps, rest) ← scan normal t; read (join_pieces ps) rest

abbrev pub is_digit : ℕ → Bool
is_digit c = leb 48 c && leb c 57

unfoldable pub span_digits : Text → Text × Text
span_digits [] = ([], [])
span_digits (c ∷ t) =
    let (ds, rest) = span_digits t in if is_digit c then (c ∷ ds, rest) else ([], c ∷ t)

unfoldable pub digits_value : (value : ℕ) → Text → ℕ
digits_value value [] = value
digits_value value (c ∷ ds) = digits_value (10 * value + (c - 48)) ds

-- `(0|[1-9]\d*)`
abbrev pub integer_part : Text → Option (Text × Text)
integer_part [] = none
integer_part (c ∷ t) =
    if c == 48 then some (48 ∷ [], t) else if is_digit c then some (span_digits (c ∷ t)) else none

-- A part that is optional: where its digits are missing it is empty, and takes nothing.
abbrev pub with_digits : (mark whole : Text) → Text × Text → Text × Text
with_digits mark whole ([], rest) = ([], whole)
with_digits mark whole (d ∷ ds, rest) = (mark ++ (d ∷ ds), rest)

abbrev pub fraction_part : Text → Text × Text
fraction_part [] = ([], [])
fraction_part (c ∷ t) =
    if c == 46 then with_digits (46 ∷ []) (c ∷ t) (span_digits t) else ([], c ∷ t)

abbrev pub sign_of : Text → Text × Text
sign_of [] = ([], [])
sign_of (c ∷ t) = if c == 43 || c == 45 then (c ∷ [], t) else ([], c ∷ t)

abbrev pub exponent_part : Text → Text × Text
exponent_part [] = ([], [])
exponent_part (c ∷ t) =
    if c == 101 || c == 69
    then (let (sign, t') = sign_of t in with_digits (c ∷ sign) (c ∷ t) (span_digits t'))
    else ([], c ∷ t)

abbrev pub signed : (negative : Bool) → ℕ → ℤ
signed true (suc n) = negsuc n
signed _ n = pos n

abbrev pub number_of : (negative : Bool) → Option (Text × Text) → Reading Value
number_of negative none = malformed
number_of negative (some (ds, after)) =
    let (fraction, after') = fraction_part after in
    let (exponent, rest) = exponent_part after' in
    if is_nil fraction && is_nil exponent
    then read (int (signed negative (digits_value 0 ds))) after
    else read (float ((if negative then 45 ∷ ds else ds) ++ (fraction ++ exponent))) rest

unfoldable pub read_number : Text → Reading Value
unfolding span_digits digits_value
read_number [] = malformed
read_number (c ∷ t) =
    if c == 45 then number_of true (integer_part t) else number_of false (integer_part (c ∷ t))

abbrev pub after_prefix : Text → Text → Option Text
after_prefix [] t = some t
after_prefix (w ∷ ws) [] = none
after_prefix (w ∷ ws) (c ∷ t) = let rest = after_prefix ws t in if w == c then rest else none

abbrev pub literals : List (Text × Value)
literals =
    (codes "null", null)
    ∷ (codes "true", bool true)
    ∷ (codes "false", bool false)
    ∷ (codes "NaN", float (codes "NaN"))
    ∷ (codes "Infinity", float (codes "Infinity"))
    ∷ (codes "-Infinity", float (codes "-Infinity"))
    ∷ []

unfoldable pub read_scalar : List (Text × Value) → Text → Reading Value
unfolding read_number
read_scalar [] t = read_number t
read_scalar ((word, v) ∷ more) t = elim (after_prefix word t) [
  | some rest ↦ read v rest
  | none ↦ read_scalar more t
]
