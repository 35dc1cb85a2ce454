-- ===== src/Json/Plain.antt =====
-- Plain values, and how their printed text begins.
use llm_chat_platform.Base.{
  ℕ, ◌≡◌, refl, ap, Bool, true, false, not, ◌&&◌, ◌||◌, ◌∷◌, ◌++◌, Text, text_eq, ◌==◌, &&-eq-true,
  arith,
}
use llm_chat_platform.Base.Int.{pos, negsuc}
use llm_chat_platform.Json.{
  Value, Items, Entries, null, bool, int, float, str, list, dict, nil, cons, end, entry, int_text,
}
use llm_chat_platform.Json.Ascii.{dumps_ascii}
use llm_chat_platform.Json.Scan.{is_space, skip_spaces}
use llm_chat_platform.Json.Load.{starts, from_pairs, last_value, without_key}
use llm_chat_platform.Json.Numbers.{decimal-IsNumeral}
pub use llm_chat_platform.Json.Strings.{all_scalar}

-- No float, no surrogate, and no key twice.
abbrev pub has_key : Text → Entries → Bool
has_key k end = false
has_key k (entry j v es) = text_eq j k || has_key k es

abbrev mutual
  pub is_plain : Value → Bool
  is_plain (float t) = false
  is_plain (str s) = all_scalar s
  is_plain (list vs) = plain_items vs
  is_plain (dict es) = plain_entries es
  is_plain _ = true

  pub plain_items : Items → Bool
  plain_items nil = true
  plain_items (cons v vs) = is_plain v && plain_items vs

  pub plain_entries : Entries → Bool
  plain_entries end = true
  plain_entries (entry k v es) =
      (all_scalar k && not (has_key k es)) && (is_plain v && plain_entries es)

last_value-absent :
    (k : Text) (v : Value) (es : Entries) → has_key k es ≡ false → last_value k v es ≡ v
last_value-absent k v end h = refl
last_value-absent k v (entry j w es) h =
    let other : text_eq j k ≡ false = ground arith in
    let rest : has_key k es ≡ false = ground arith in rw other (last_value-absent k v es rest)

without_key-absent : (k : Text) (es : Entries) → has_key k es ≡ false → without_key k es ≡ es
without_key-absent k end h = refl
without_key-absent k (entry j w es) h =
    let other : text_eq j k ≡ false = ground arith in
    let rest : has_key k es ≡ false = ground arith in
    rw other (ap (λ r. entry j w r) (without_key-absent k es rest))

pub from_pairs-plain : (es : Entries) → plain_entries es ≡ true → from_pairs es ≡ es
unfolding from_pairs
from_pairs-plain end h = refl
from_pairs-plain (entry k v es) h =
    let (key, rest) = &&-eq-true {a = all_scalar k && not (has_key k es)} h in
    let once : has_key k es ≡ false = ground arith in
    let more = &&-eq-true {a = is_plain v} rest in
    rw (last_value-absent k v es once, from_pairs-plain es more.1, without_key-absent k es once)
      refl

-- A printed value begins with a character that is neither white space nor the end of a list.
abbrev pub Begins : Text → Type 0
Begins t = (c : ℕ) × (s : Text) × (t ≡ c ∷ s) × (is_space c ≡ false) × ((c == 93) ≡ false)

int_text-Begins : (n : _) → Begins (int_text n)
unfolding int_text
int_text-Begins (pos n) =
    let (c, s, num, eq) = decimal-IsNumeral n in
    (c, s, eq, ground (arith, num.leading), ground (arith, num.leading))
int_text-Begins (negsuc n) = (_, _, refl, refl, refl)

pub dumps_ascii-Begins : (v : Value) → is_plain v ≡ true → Begins (dumps_ascii v)
unfolding dumps_ascii
dumps_ascii-Begins null h = (_, _, refl, refl, refl)
dumps_ascii-Begins (bool true) h = (_, _, refl, refl, refl)
dumps_ascii-Begins (bool false) h = (_, _, refl, refl, refl)
dumps_ascii-Begins (int n) h = int_text-Begins n
dumps_ascii-Begins (float t) h = absurd cc
dumps_ascii-Begins (str s) h = (_, _, refl, refl, refl)
dumps_ascii-Begins (list vs) h = (_, _, refl, refl, refl)
dumps_ascii-Begins (dict es) h = (_, _, refl, refl, refl)

pub Begins-skip_spaces : (t u : Text) → Begins t → skip_spaces (t ++ u) ≡ t ++ u
Begins-skip_spaces t u (c, s, eq, space, close) = rw (eq, space) refl

pub Begins-starts : (t u : Text) → Begins t → starts 93 (t ++ u) ≡ false
Begins-starts t u (c, s, eq, space, close) = rw (eq, close) refl

pub Begins-append : (t u : Text) → Begins t → Begins (t ++ u)
Begins-append t u (c, s, eq, space, close) = (c, s ++ u, ap (λ r. r ++ u) eq, space, close)
