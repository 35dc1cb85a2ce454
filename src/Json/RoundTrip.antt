-- ===== src/Json/RoundTrip.antt =====
-- Whatever `json.dumps` prints of a plain value, `json.loads` reads back.
use llm_chat_platform.Base.{
  ℕ, zero, suc, ◌+◌, ◌*◌, ◌<◌, ◌≡◌, refl, ◌∙◌, Bool, true, false, not, ◌&&◌, [], ◌∷◌, ◌++◌,
  append_assoc, append-nil, some, Text, length, length-append, &&-eq-true, arith,
}
use llm_chat_platform.Base.Int.{ℤ}
use llm_chat_platform.Json.{
  Value, Items, Entries, null, bool, int, float, str, list, dict, nil, cons, end, entry,
}
use llm_chat_platform.Json.Ascii.{dumps_ascii, ascii_items, ascii_entries, ascii_chars}
use llm_chat_platform.Json.Scan.{read, skip_spaces}
use llm_chat_platform.Json.Load.{read_value, read_list, read_items, read_dict, read_entries, loads}
use llm_chat_platform.Json.Numbers.{number_ends}
use llm_chat_platform.Json.Strings.{all_scalar, read_string-ascii_chars}
use llm_chat_platform.Json.Plain.{
  is_plain, plain_items, plain_entries, has_key, from_pairs-plain, dumps_ascii-Begins,
  Begins-append, Begins-skip_spaces, Begins-starts,
}
use llm_chat_platform.Json.Steps.{
  read_value-list, read_value-dict, read_value-str, read_value-int, read_list-items,
  read_items-last, read_items-more, read_dict-entries, read_entries-last, read_entries-more,
}

length-append_text : (s t : Text) → length (s ++ t) ≡ length s + length t
length-append_text = length-append

ruleset lengths = (arith, length-append_text)

abbrev ReadsValue : Value → Type 0
ReadsValue v =
    is_plain v ≡ true
    → (t : Text) (f : ℕ) → number_ends t ≡ true
    → 2 * length (dumps_ascii v) < f
    → read_value f (dumps_ascii v ++ t) ≡ read v t

-- The items behind a first one, and the whole list.
abbrev ReadsRest : Items → Type 0
ReadsRest vs =
    plain_items vs ≡ true
    → (v : Value) → ReadsValue v
    → is_plain v ≡ true
    → (t : Text) (f : ℕ) → 2 * length (dumps_ascii v ++ ascii_items false vs) < f
    → read_items f ((dumps_ascii v ++ ascii_items false vs) ++ t) ≡ read (cons v vs) t

abbrev ReadsList : Items → Type 0
ReadsList vs =
    plain_items vs ≡ true
    → (t : Text) (f : ℕ) → 2 * length (ascii_items true vs) + 1 < f
    → read_list f (ascii_items true vs ++ t) ≡ read vs t

abbrev pair_text : Text → Value → Entries → Text
pair_text k v es = ascii_chars k ++ (58 ∷ (dumps_ascii v ++ ascii_entries false es))

abbrev ReadsPairs : Entries → Type 0
ReadsPairs es =
    plain_entries es ≡ true
    → (k : Text) (v : Value) → all_scalar k ≡ true
    → ReadsValue v
    → is_plain v ≡ true
    → (t : Text) (f : ℕ) → 2 * length (pair_text k v es) < f
    → read_entries f (34 ∷ (pair_text k v es ++ t)) ≡ read (entry k v es) t

abbrev ReadsDict : Entries → Type 0
ReadsDict es =
    plain_entries es ≡ true
    → (t : Text) (f : ℕ) → 2 * length (ascii_entries true es) + 1 < f
    → read_dict f (ascii_entries true es ++ t) ≡ read es t

nil-ReadsRest : ReadsRest nil
unfolding dumps_ascii
nil-ReadsRest plain v hv pv t zero bound = absurd (omega arith)
nil-ReadsRest plain v hv pv t (suc f) bound =
    rw append_assoc (read_items-last f _ t v (hv pv (93 ∷ t) f refl (omega lengths)))

cons-ReadsRest : (w : Value) (ws : Items) → ReadsValue w → ReadsRest ws → ReadsRest (cons w ws)
unfolding dumps_ascii
cons-ReadsRest w ws hw hws plain v hv pv t zero bound = absurd (omega arith)
cons-ReadsRest w ws hw hws plain v hv pv t (suc f) bound =
    let (pw, pws) = &&-eq-true {a = is_plain w} plain in
    let tail_read : read_items f (skip_spaces ((dumps_ascii w ++ ascii_items false ws) ++ t))
        ≡ read (cons w ws) t =
      rw
        (
          append_assoc,
          Begins-skip_spaces (dumps_ascii w) (ascii_items false ws ++ t) (dumps_ascii-Begins w pw),
        )
        (rw append_assoc at (hws pws w hw pw t f (omega lengths))) in
    rw append_assoc (
      read_items-more f _ _ t v (cons w ws)
        (hv pv (44 ∷ ((dumps_ascii w ++ ascii_items false ws) ++ t)) f refl (omega lengths))
        tail_read)

nil-ReadsList : ReadsList nil
unfolding dumps_ascii read_value
nil-ReadsList plain t zero bound = absurd (omega arith)
nil-ReadsList plain t (suc f) bound = refl

cons-ReadsList : (v : Value) (vs : Items) → ReadsValue v → ReadsRest vs → ReadsList (cons v vs)
unfolding dumps_ascii
cons-ReadsList v vs hv hvs plain t zero bound = absurd (omega arith)
cons-ReadsList v vs hv hvs plain t (suc f) bound =
    let (pv, pvs) = &&-eq-true {a = is_plain v} plain in
    read_list-items f _
      (rw append_assoc (Begins-starts (dumps_ascii v) _ (dumps_ascii-Begins v pv)))
    ∙ hvs pvs v hv pv t f (omega lengths)

skip_spaces-items :
    (vs : Items) (t : Text)
    → plain_items vs ≡ true
    → skip_spaces (ascii_items true vs ++ t) ≡ ascii_items true vs ++ t
unfolding dumps_ascii
skip_spaces-items nil t plain = refl
skip_spaces-items (cons v vs) t plain =
    Begins-skip_spaces (dumps_ascii v ++ ascii_items false vs) t (
      Begins-append (dumps_ascii v) (ascii_items false vs)
        (dumps_ascii-Begins v (&&-eq-true {a = is_plain v} plain).0))

list-ReadsValue : (vs : Items) → ReadsList vs → ReadsValue (list vs)
unfolding dumps_ascii
list-ReadsValue vs hvs plain t zero stop bound = absurd (omega arith)
list-ReadsValue vs hvs plain t (suc f) stop bound =
    read_value-list f _ t vs (rw (skip_spaces-items vs t plain) (hvs plain t f (omega lengths)))

end-ReadsPairs : ReadsPairs end
unfolding dumps_ascii
end-ReadsPairs plain k v sk hv pv t zero bound = absurd (omega arith)
end-ReadsPairs plain k v sk hv pv t (suc f) bound =
    let value : read_value f (skip_spaces (dumps_ascii v ++ (125 ∷ t))) ≡ read v (125 ∷ t) =
      rw (Begins-skip_spaces (dumps_ascii v) (125 ∷ t) (dumps_ascii-Begins v pv))
        (hv pv (125 ∷ t) f refl (omega lengths)) in
    read_entries-last f _ (dumps_ascii v ++ (125 ∷ t)) t k v
      (rw (append_assoc, append_assoc)
        (read_string-ascii_chars k (58 ∷ (dumps_ascii v ++ (125 ∷ t))) sk))
      value

entry-ReadsPairs :
    (j : Text) (w : Value) (es : Entries) → ReadsValue w → ReadsPairs es → ReadsPairs (entry j w es)
unfolding dumps_ascii
entry-ReadsPairs j w es hw hes plain k v sk hv pv t zero bound = absurd (omega arith)
entry-ReadsPairs j w es hw hes plain k v sk hv pv t (suc f) bound =
    let (key, rest) = &&-eq-true {a = all_scalar j && not (has_key j es)} plain in
    let sj = (&&-eq-true {a = all_scalar j} key).0 in
    let (pw, pes) = &&-eq-true {a = is_plain w} rest in
    let next = 34 ∷ (pair_text j w es ++ t) in
    let value : read_value f (skip_spaces (dumps_ascii v ++ (44 ∷ next))) ≡ read v (44 ∷ next) =
      rw (Begins-skip_spaces (dumps_ascii v) (44 ∷ next) (dumps_ascii-Begins v pv))
        (hv pv (44 ∷ next) f refl (omega lengths)) in
    read_entries-more f _ (dumps_ascii v ++ (44 ∷ next)) next t k v (entry j w es)
      (rw (append_assoc, append_assoc)
        (read_string-ascii_chars k (58 ∷ (dumps_ascii v ++ (44 ∷ next))) sk))
      value (hes pes j w sj hw pw t f (omega lengths))

end-ReadsDict : ReadsDict end
unfolding dumps_ascii read_value
end-ReadsDict plain t zero bound = absurd (omega arith)
end-ReadsDict plain t (suc f) bound = refl

entry-ReadsDict :
    (k : Text) (v : Value) (es : Entries) → ReadsValue v → ReadsPairs es → ReadsDict (entry k v es)
unfolding dumps_ascii
entry-ReadsDict k v es hv hes plain t zero bound = absurd (omega arith)
entry-ReadsDict k v es hv hes plain t (suc f) bound =
    let (key, rest) = &&-eq-true {a = all_scalar k && not (has_key k es)} plain in
    let sk = (&&-eq-true {a = all_scalar k} key).0 in
    let (pv, pes) = &&-eq-true {a = is_plain v} rest in
    read_dict-entries f (pair_text k v es ++ t) ∙ hes pes k v sk hv pv t f (omega lengths)

skip_spaces-entries :
    (es : Entries) (t : Text)
    → skip_spaces (ascii_entries true es ++ t) ≡ ascii_entries true es ++ t
unfolding dumps_ascii
skip_spaces-entries end t = refl
skip_spaces-entries (entry k v es) t = refl

dict-ReadsValue : (es : Entries) → ReadsDict es → ReadsValue (dict es)
unfolding dumps_ascii
dict-ReadsValue es hes plain t zero stop bound = absurd (omega arith)
dict-ReadsValue es hes plain t (suc f) stop bound =
    read_value-dict f _ t es (rw (skip_spaces-entries es t) (hes plain t f (omega lengths)))
      (from_pairs-plain es plain)

null-ReadsValue : ReadsValue null
unfolding dumps_ascii read_value
null-ReadsValue plain t zero stop bound = absurd (omega arith)
null-ReadsValue plain t (suc f) stop bound = refl

bool-ReadsValue : (b : Bool) → ReadsValue (bool b)
unfolding dumps_ascii read_value
bool-ReadsValue b plain t zero stop bound = absurd (omega arith)
bool-ReadsValue true plain t (suc f) stop bound = refl
bool-ReadsValue false plain t (suc f) stop bound = refl

int-ReadsValue : (n : ℤ) → ReadsValue (int n)
unfolding dumps_ascii
int-ReadsValue n plain t zero stop bound = absurd (omega arith)
int-ReadsValue n plain t (suc f) stop bound = read_value-int f n t stop

str-ReadsValue : (s : Text) → ReadsValue (str s)
unfolding dumps_ascii
str-ReadsValue s plain t zero stop bound = absurd (omega arith)
str-ReadsValue s plain t (suc f) stop bound =
    read_value-str f _ t s (read_string-ascii_chars s t plain)

dumps_ascii-ReadsValue : (v : Value) → ReadsValue v
unfolding dumps_ascii read_value
dumps_ascii-ReadsValue v =
    elim v as ReadsValue (λ vs. ReadsRest vs × ReadsList vs) (λ es. ReadsPairs es × ReadsDict es) [
      | null ↦ null-ReadsValue
      | bool b ↦ bool-ReadsValue b
      | int n ↦ int-ReadsValue n
      | float s ↦ λ plain. absurd cc
      | str s ↦ str-ReadsValue s
      | list (vs → ih) ↦ list-ReadsValue vs ih.1
      | dict (es → ih) ↦ dict-ReadsValue es ih.1
      | nil ↦ (nil-ReadsRest, nil-ReadsList)
      | cons (v' → hv) (vs → hvs) ↦ (cons-ReadsRest v' vs hv hvs.0, cons-ReadsList v' vs hv hvs.0)
      | end ↦ (end-ReadsPairs, end-ReadsDict)
      | entry k (v' → hv) (es → hes) ↦
          (entry-ReadsPairs k v' es hv hes.0, entry-ReadsDict k v' es hv hes.0)
    ]

-- `json.loads` gives back every plain value that `json.dumps` printed: one with no float, no
-- surrogate code point and no key twice in a dict.
pub loads-dumps_ascii : (v : Value) → is_plain v ≡ true → loads (dumps_ascii v) ≡ some v
unfolding loads
loads-dumps_ascii v plain =
    let whole : read_value (2 * length (dumps_ascii v) + 1) (dumps_ascii v) ≡ read v [] =
      rw append-nil at
        (dumps_ascii-ReadsValue v plain [] (2 * length (dumps_ascii v) + 1) refl (omega arith)) in
    let skipped : skip_spaces (dumps_ascii v) ≡ dumps_ascii v =
      rw append-nil at (Begins-skip_spaces (dumps_ascii v) [] (dumps_ascii-Begins v plain)) in
    rw (skipped, whole) refl

-- No two plain values print alike.
pub dumps_ascii_injective :
    (v w : Value) → is_plain v ≡ true → is_plain w ≡ true → dumps_ascii v ≡ dumps_ascii w → v ≡ w
dumps_ascii_injective v w pv pw same = cc (loads-dumps_ascii v pv, loads-dumps_ascii w pw)
