-- ===== src/Json.antt =====
-- The JSON values that the program builds and reads, and Python's `json.dumps` with
-- `sort_keys=True, separators=(",", ":"), ensure_ascii=False`, which app/core/domain/
-- provider_prompt.py renders its envelopes with. A float is the literal that denotes it.
pub mod Ascii
pub mod Scan
pub mod Load
mod Numbers
mod Strings
mod Steps
pub mod Plain
pub mod RoundTrip
mod Tests
use llm_chat_platform.Base.{
  ℕ, zero, suc, ◌+◌, ◌/◌, ◌%◌, Bool, true, false, ◌&&◌, ◌||◌, List, [], ◌∷◌, ◌++◌, map, Option,
  none, some, String, Text, codes, text_eq, ltb, ◌==◌, if◌then◌else◌,
}
use llm_chat_platform.Base.Int.{ℤ, pos, negsuc}

mutual
  pub data Value : Type 0 where
    null : Value
    bool : Bool → Value
    int : ℤ → Value
    float : Text → Value
    str : Text → Value
    list : Items → Value
    dict : Entries → Value

  pub data Items : Type 0 where
    nil : Items
    cons : Value → Items → Items

  pub data Entries : Type 0 where
    end : Entries
    entry : Text → Value → Entries → Entries

abbrev pub items : Items → List Value
items nil = []
items (cons v vs) = v ∷ items vs

abbrev pub items_of : List Value → Items
items_of [] = nil
items_of (v ∷ vs) = cons v (items_of vs)

-- An entry under a literal key.
abbrev pub field : String → Value → Entries → Entries
field k v es = entry (codes k) v es

-- `d.get(key)`
abbrev pub get : String → Entries → Option Value
get k end = none
get k (entry j v es) = if text_eq j (codes k) then some v else get k es

abbrev pub keys : Entries → List Text
keys end = []
keys (entry j v es) = j ∷ keys es

-- `str(n)` for a number that is not negative; `n + 1` rounds are enough, since each removes a digit.
unfoldable pub digits : ℕ → ℕ → Text → Text
digits zero n acc = acc
digits (suc fuel) n acc =
    let more = digits fuel (n / 10) ((48 + n % 10) ∷ acc) in
    if ltb n 10 then (48 + n) ∷ acc else more

unfoldable pub decimal : ℕ → Text
unfolding digits
decimal n = digits (suc n) n []

unfoldable pub int_text : ℤ → Text
unfolding decimal
int_text (pos n) = decimal n
int_text (negsuc n) = 45 ∷ decimal (suc n)

-- The characters of a string literal: control characters, the quote and the backslash are escaped.
unfoldable pub hex_digit : ℕ → ℕ
hex_digit d = if ltb d 10 then 48 + d else 87 + d

escape : ℕ → Text
unfolding hex_digit
escape c =
    if c == 34
    then 92 ∷ 34 ∷ []
    else if c == 92
    then 92 ∷ 92 ∷ []
    else if c == 10
    then 92 ∷ 110 ∷ []
    else if c == 13
    then 92 ∷ 114 ∷ []
    else if c == 9
    then 92 ∷ 116 ∷ []
    else if c == 12
    then 92 ∷ 102 ∷ []
    else if c == 8
    then 92 ∷ 98 ∷ []
    else if ltb c 32
    then 92 ∷ 117 ∷ 48 ∷ 48 ∷ hex_digit (c / 16) ∷ hex_digit (c % 16) ∷ []
    else c ∷ []

escaped : Text → Text
unfolding escape
escaped [] = []
escaped (c ∷ cs) = escape c ++ escaped cs

quoted : Text → Text
unfolding escaped
quoted s = 34 ∷ (escaped s ++ (34 ∷ []))

-- Keys are sorted by their code points.
unfoldable pub text_le : Text → Text → Bool
text_le [] t = true
text_le (c ∷ s) [] = false
text_le (c ∷ s) (d ∷ t) = ltb c d || (c == d && text_le s t)

unfoldable pub insert_key : Text × Text → List (Text × Text) → List (Text × Text)
unfolding text_le
insert_key p [] = p ∷ []
insert_key p (q ∷ qs) = if text_le p.0 q.0 then p ∷ q ∷ qs else q ∷ insert_key p qs

sort_keys : List (Text × Text) → List (Text × Text)
unfolding insert_key
sort_keys [] = []
sort_keys (p ∷ ps) = insert_key p (sort_keys ps)

join_commas : List Text → Text
join_commas [] = []
join_commas (t ∷ []) = t
join_commas (t ∷ u ∷ ts) = t ++ (44 ∷ join_commas (u ∷ ts))

member : Text × Text → Text
unfolding quoted
member (k, v) = quoted k ++ (58 ∷ v)

bool_text : Bool → Text
bool_text true = codes "true"
bool_text false = codes "false"

unfoldable mutual
  unfolding int_text quoted join_commas sort_keys member bool_text

  pub dumps : Value → Text
  dumps null = codes "null"
  dumps (bool b) = bool_text b
  dumps (int n) = int_text n
  dumps (float t) = t
  dumps (str s) = quoted s
  dumps (list vs) = 91 ∷ (join_commas (dump_items vs) ++ (93 ∷ []))
  dumps (dict es) = 123 ∷ (join_commas (map member (sort_keys (dump_entries es))) ++ (125 ∷ []))

  pub dump_items : Items → List Text
  dump_items nil = []
  dump_items (cons v vs) = dumps v ∷ dump_items vs

  pub dump_entries : Entries → List (Text × Text)
  dump_entries end = []
  dump_entries (entry k v es) = (k, dumps v) ∷ dump_entries es
