-- ===== src/Json/Steps.antt =====
-- The reader on one more character, given what its calls read.
use mathlib.Core.Path.{subst}
use llm_chat_platform.Base.{
  ℕ, suc, ◌≡◌, refl, Bool, false, [], ◌∷◌, ◌++◌, none, Text, ◌==◌, arith, ◌∙◌, List, List, take,
  codes, true, &&-eq-true, not, ◌&&◌,
}
use llm_chat_platform.Base.Int.{ℤ, pos, negsuc}
use llm_chat_platform.Json.{
  Value, Items, Entries, int, float, str, list, dict, nil, cons, end, entry, int_text,
}
use llm_chat_platform.Json.Scan.{
  read, skip_spaces, after_prefix, literals, read_scalar, read_number, read_string, is_digit,
}
use llm_chat_platform.Json.Load.{
  read_value, read_list, read_items, read_dict, read_entries, from_pairs, starts, opening,
  no_opening,
}
use llm_chat_platform.Json.Numbers.{number_ends, decimal-IsNumeral, read_number-int_text}

module _ (f : ℕ) where
  pub read_value-list :
      (t rest : Text) (vs : Items)
      → read_list f (skip_spaces t) ≡ read vs rest
      → read_value (suc f) (91 ∷ t) ≡ read (list vs) rest
  unfolding read_value
  read_value-list t rest vs h = rw h refl

  pub read_value-dict :
      (t rest : Text) (es : Entries)
      → read_dict f (skip_spaces t) ≡ read es rest
      → from_pairs es ≡ es
      → read_value (suc f) (123 ∷ t) ≡ read (dict es) rest
  unfolding read_value
  read_value-dict t rest es h same = rw (h, same) refl

  pub read_value-str :
      (t rest s : Text)
      → read_string t ≡ read s rest
      → read_value (suc f) (34 ∷ t) ≡ read (str s) rest
  unfolding read_value
  read_value-str t rest s h = rw h refl

  pub read_list-items : (t : Text) → starts 93 t ≡ false → read_list (suc f) t ≡ read_items f t
  unfolding read_list
  read_list-items t h = rw (h, read_list) refl

  pub read_items-last :
      (t rest : Text) (v : Value)
      → read_value f t ≡ read v (93 ∷ rest)
      → read_items (suc f) t ≡ read (cons v nil) rest
  unfolding read_items
  read_items-last t rest v h = rw h refl

  pub read_items-more :
      (t next rest : Text) (v : Value) (vs : Items)
      → read_value f t ≡ read v (44 ∷ next)
      → read_items f (skip_spaces next) ≡ read vs rest
      → read_items (suc f) t ≡ read (cons v vs) rest
  unfolding read_items
  read_items-more t next rest v vs h hs = rw (h, hs) refl

  pub read_dict-entries : (t : Text) → read_dict (suc f) (34 ∷ t) ≡ read_entries f (34 ∷ t)
  unfolding read_dict
  read_dict-entries t = refl

  pub read_entries-last :
      (t value rest k : Text) (v : Value)
      → read_string t ≡ read k (58 ∷ value)
      → read_value f (skip_spaces value) ≡ read v (125 ∷ rest)
      → read_entries (suc f) (34 ∷ t) ≡ read (entry k v end) rest
  unfolding read_entries
  read_entries-last t value rest k v hk hv = rw (hk, hv) refl

  pub read_entries-more :
      (t value next rest k : Text) (v : Value) (es : Entries)
      → read_string t ≡ read k (58 ∷ value)
      → read_value f (skip_spaces value) ≡ read v (44 ∷ next)
      → read_entries f (skip_spaces next) ≡ read es rest
      → read_entries (suc f) (34 ∷ t) ≡ read (entry k v es) rest
  unfolding read_entries
  read_entries-more t value next rest k v es hk hv hs = rw (hk, hv, hs) refl

after_prefix-ne : (w c : ℕ) (ws t : Text) → (w == c) ≡ false → after_prefix (w ∷ ws) (c ∷ t) ≡ none
after_prefix-ne w c ws t h = rw h refl

-- Words with another first character are passed over.
abbrev heads_differ : ℕ → List (Text × Value) → Bool
heads_differ c [] = true
heads_differ c (([], v) ∷ words) = false
heads_differ c ((w ∷ ws, v) ∷ words) = not (w == c) && heads_differ c words

pass_words :
    (c : ℕ) (t : Text) (words more : List (Text × Value))
    → heads_differ c words ≡ true
    → read_scalar (words ++ more) (c ∷ t) ≡ read_scalar more (c ∷ t)
unfolding read_scalar
pass_words c t [] more h = refl
pass_words c t (([], v) ∷ words) more h = absurd cc
pass_words c t ((w ∷ ws, v) ∷ words) more h =
    let (one, others) = &&-eq-true {a = not (w == c)} h in
    rw (after_prefix-ne w c ws t (ground arith), read_scalar) (pass_words c t words more others)

minus_word : List (Text × Value)
minus_word = (codes "-Infinity", float (codes "-Infinity")) ∷ []

pass_minus :
    (c : ℕ) (t : Text)
    → is_digit c ≡ true
    → read_scalar minus_word (45 ∷ c ∷ t) ≡ read_number (45 ∷ c ∷ t)
unfolding read_scalar minus_word
pass_minus c t h = let other : (73 == c) ≡ false = ground arith in rw (other, read_scalar) refl

-- A numeral is none of the words.
read_scalar-digit :
    (c : ℕ) (t : Text) → is_digit c ≡ true → read_scalar literals (c ∷ t) ≡ read_number (c ∷ t)
unfolding read_scalar
read_scalar-digit c t h = pass_words c t literals [] (ground arith)

read_scalar-minus :
    (c : ℕ) (t : Text)
    → is_digit c ≡ true
    → read_scalar literals (45 ∷ c ∷ t) ≡ read_number (45 ∷ c ∷ t)
unfolding minus_word
read_scalar-minus c t h = pass_words 45 (c ∷ t) (take 5 literals) minus_word refl ∙ pass_minus c t h

read_value-scalar :
    (f : ℕ) (t : Text) → opening t ≡ no_opening → read_value (suc f) t ≡ read_scalar literals t
unfolding read_value
read_value-scalar f t h = rw (h, read_value) refl

opening-digit : (c : ℕ) (s : Text) → is_digit c ≡ true → opening (c ∷ s) ≡ no_opening
opening-digit c s h = ground arith

pub read_value-int :
    (f : ℕ) (n : ℤ) (t : Text)
    → number_ends t ≡ true
    → read_value (suc f) (int_text n ++ t) ≡ read (int n) t
unfolding int_text
read_value-int f (pos n) t stop =
    let (c, s, num, eq) = decimal-IsNumeral n in
    let whole : read_number (c ∷ (s ++ t)) ≡ read (int (pos n)) t =
      subst (λ d. read_number (d ++ t) ≡ read (int (pos n)) t) eq
        (read_number-int_text (pos n) t stop) in
    rw eq (
      read_value-scalar f (c ∷ (s ++ t)) (opening-digit c (s ++ t) num.leading)
      ∙ read_scalar-digit c (s ++ t) num.leading
      ∙ whole)
read_value-int f (negsuc n) t stop =
    let (c, s, num, eq) = decimal-IsNumeral (suc n) in
    let whole : read_number (45 ∷ c ∷ (s ++ t)) ≡ read (int (negsuc n)) t =
      subst (λ d. read_number (45 ∷ (d ++ t)) ≡ read (int (negsuc n)) t) eq
        (read_number-int_text (negsuc n) t stop) in
    rw eq (
      read_value-scalar f (45 ∷ c ∷ (s ++ t)) refl
      ∙ read_scalar-minus c (s ++ t) num.leading
      ∙ whole)
