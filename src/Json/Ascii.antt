-- ===== src/Json/Ascii.antt =====
-- Python's `json.dumps` with `separators=(",", ":")` alone, which escapes what is not printable
-- ASCII, and the order that `sort_keys=True` gives the entries: what app/services/
-- chat_response_cache.py stores and fingerprints, and app/api/routes/chat.py sends.
use llm_chat_platform.Base.{
  ℕ, ◌+◌, ◌-◌, ◌/◌, ◌%◌, Bool, true, false, ◌&&◌, [], ◌∷◌, ◌++◌, Text, codes, ltb, leb, ◌==◌,
  if◌then◌else◌,
}
use llm_chat_platform.Json.{
  Value, Items, Entries, null, bool, int, float, str, list, dict, nil, cons, end, entry, hex_digit,
  int_text, text_le,
}

unfoldable pub utf16_unit : ℕ → Text
unfolding hex_digit
utf16_unit u =
    92
    ∷ 117
    ∷ hex_digit (u / 4096)
    ∷ hex_digit (u / 256 % 16)
    ∷ hex_digit (u / 16 % 16)
    ∷ hex_digit (u % 16)
    ∷ []

abbrev pub high_unit : ℕ → ℕ
high_unit c = 55296 + (c - 65536) / 1024

abbrev pub low_unit : ℕ → ℕ
low_unit c = 56320 + (c - 65536) % 1024

abbrev pub coded_escape : ℕ → Text
coded_escape c =
    if ltb c 65536 then utf16_unit c else utf16_unit (high_unit c) ++ utf16_unit (low_unit c)

unfoldable pub ascii_escape : ℕ → Text
unfolding utf16_unit
ascii_escape c =
    if c == 34
    then 92 ∷ 34 ∷ []
    else if c == 92
    then 92 ∷ 92 ∷ []
    else if c == 10
    then 92 ∷ 110 ∷ []
    else if c == 13
    then 92 ∷ 114 ∷ []
    else if c == 9
    then 92 ∷ 116 ∷ []
    else if c == 12
    then 92 ∷ 102 ∷ []
    else if c == 8
    then 92 ∷ 98 ∷ []
    else if leb 32 c && leb c 126
    then c ∷ []
    else coded_escape c

-- The characters of a string, with the quote that ends it.
unfoldable pub ascii_chars : Text → Text
unfolding ascii_escape
ascii_chars [] = 34 ∷ []
ascii_chars (c ∷ s) = ascii_escape c ++ ascii_chars s

abbrev pub separator : (first : Bool) → Text
separator true = []
separator false = 44 ∷ []

abbrev pub bool_literal : Bool → Text
bool_literal true = codes "true"
bool_literal false = codes "false"

unfoldable mutual
  unfolding ascii_chars int_text

  pub dumps_ascii : Value → Text
  dumps_ascii null = codes "null"
  dumps_ascii (bool b) = bool_literal b
  dumps_ascii (int n) = int_text n
  dumps_ascii (float t) = t
  dumps_ascii (str s) = 34 ∷ ascii_chars s
  dumps_ascii (list vs) = 91 ∷ ascii_items true vs
  dumps_ascii (dict es) = 123 ∷ ascii_entries true es

  pub ascii_items : (first : Bool) → Items → Text
  ascii_items first nil = 93 ∷ []
  ascii_items first (cons v vs) = separator first ++ (dumps_ascii v ++ ascii_items false vs)

  pub ascii_entries : (first : Bool) → Entries → Text
  ascii_entries first end = 125 ∷ []
  ascii_entries first (entry k v es) =
      separator first ++ (34 ∷ (ascii_chars k ++ (58 ∷ (dumps_ascii v ++ ascii_entries false es))))

-- `sort_keys=True`
unfoldable pub insert_entry : Text → Value → Entries → Entries
unfolding text_le
insert_entry k v end = entry k v end
insert_entry k v (entry j w es) =
    let after = insert_entry k v es in
    if text_le k j then entry k v (entry j w es) else entry j w after

unfoldable mutual
  unfolding insert_entry

  pub sort_value : Value → Value
  sort_value (list vs) = list (sort_items vs)
  sort_value (dict es) = dict (sort_entries es)
  sort_value v = v

  pub sort_items : Items → Items
  sort_items nil = nil
  sort_items (cons v vs) = cons (sort_value v) (sort_items vs)

  pub sort_entries : Entries → Entries
  sort_entries end = end
  sort_entries (entry k v es) = insert_entry k (sort_value v) (sort_entries es)
