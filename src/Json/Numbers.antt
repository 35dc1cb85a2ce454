-- ===== src/Json/Numbers.antt =====
-- A number that was printed is read back.
use llm_chat_platform.Base.{
  ℕ, zero, suc, ◌+◌, ◌*◌, ◌-◌, ◌/◌, ◌%◌, ◌≤◌, ◌<◌, ◌≡◌, ◌⊎◌, refl, inl, inr, Bool, true, false, not,
  ◌&&◌, ◌||◌, [], ◌∷◌, ◌++◌, append-nil, append_assoc, some, Text, ltb, ◌==◌, Bool-cases, arith,
  ltb→lt, ltb→ge, ap, ◌∙◌, sym, ==_iff, &&-eq-true,
}
use llm_chat_platform.Base.Int.{ℤ, pos, negsuc}
use llm_chat_platform.Json.{int, digits, decimal, int_text}
use llm_chat_platform.Json.Scan.{
  read, is_digit, span_digits, digits_value, integer_part, fraction_part, exponent_part, signed,
  number_of, read_number,
}

abbrev all_digits : Text → Bool
all_digits [] = true
all_digits (c ∷ s) = is_digit c && all_digits s

-- No number goes on in this text.
abbrev pub number_ends : Text → Bool
number_ends [] = true
number_ends (c ∷ t) = not (is_digit c || (c == 46 || (c == 101 || c == 69)))

digits_value-last :
    (v d : ℕ) (s : Text) → digits_value v (s ++ (d ∷ [])) ≡ 10 * digits_value v s + (d - 48)
unfolding digits_value
digits_value-last v d [] = refl
digits_value-last v d (c ∷ s) = digits_value-last (10 * v + (c - 48)) d s

all_digits-last :
    (d : ℕ) (s : Text) → all_digits s ≡ true → is_digit d ≡ true → all_digits (s ++ (d ∷ [])) ≡ true
all_digits-last d [] h last = rw last refl
all_digits-last d (c ∷ s) h last =
    let (one, more) = &&-eq-true {a = is_digit c} h in rw (one, all_digits-last d s more last) refl

-- The text `c ∷ s` is the decimal numeral of `n`.
pub record IsNumeral (n c : ℕ) (s : Text) : Type 0 where
  pub leading : is_digit c ≡ true
  pub others : all_digits s ≡ true
  pub denotes : digits_value 0 (c ∷ s) ≡ n
  pub no_zero : ((c == 48) ≡ false) ⊎ (s ≡ [])
  pub positive : 0 < n → (c == 48) ≡ false

one_digit : (n : ℕ) → n < 10 → IsNumeral n (48 + n) []
unfolding digits_value
one_digit n h = record {
  leading = ground arith;
  others = refl;
  denotes = omega arith;
  no_zero = inr refl;
  positive = λ p. ground arith;
}

put_digit :
    (n c : ℕ) (s : Text)
    → 10 ≤ n
    → IsNumeral (n / 10) c s
    → IsNumeral n c (s ++ ((48 + n % 10) ∷ []))
put_digit n c s h num = record {
  leading = num.leading;
  others = all_digits-last (48 + n % 10) s num.others (ground arith);
  denotes = omega (arith, digits_value-last 0 (48 + n % 10) (c ∷ s), num.denotes);
  no_zero = inl (num.positive (omega arith));
  positive = λ p. num.positive (omega arith);
}

digits-IsNumeral :
    (fuel n : ℕ) (acc : Text)
    → n < fuel
    → (c : ℕ) × (s : Text) × IsNumeral n c s × (digits fuel n acc ≡ c ∷ (s ++ acc))
unfolding digits
digits-IsNumeral zero n acc h = absurd (omega arith)
digits-IsNumeral (suc fuel) n acc h = elim (Bool-cases (ltb n 10)) [
  | inl small ↦ (48 + n, [], one_digit n (ltb→lt n 10 small), rw small refl)
  | inr large ↦
      let big = ltb→ge n 10 large in
      let (c, s, num, eq) = digits-IsNumeral fuel (n / 10) ((48 + n % 10) ∷ acc) (omega arith) in
      (
        c,
        s ++ ((48 + n % 10) ∷ []),
        put_digit n c s big num,
        rw large (eq ∙ ap (λ r. c ∷ r) (sym (append_assoc s _ acc))),
      )
]

pub decimal-IsNumeral : (n : ℕ) → (c : ℕ) × (s : Text) × IsNumeral n c s × (decimal n ≡ c ∷ s)
unfolding decimal
decimal-IsNumeral n =
    let (c, s, num, eq) = digits-IsNumeral (suc n) n [] (omega arith) in
    (c, s, num, eq ∙ ap (λ r. c ∷ r) (append-nil s))

span_digits-numeral :
    (s t : Text) → all_digits s ≡ true → number_ends t ≡ true → span_digits (s ++ t) ≡ (s, t)
unfolding span_digits
span_digits-numeral [] [] h stop = refl
span_digits-numeral [] (c ∷ t) h stop =
    let other : is_digit c ≡ false = ground arith in rw other refl
span_digits-numeral (c ∷ s) t h stop =
    let (one, more) = &&-eq-true {a = is_digit c} h in
    rw (span_digits-numeral s t more stop, one) refl

integer_part-numeral :
    (n c : ℕ) (s t : Text)
    → IsNumeral n c s
    → number_ends t ≡ true
    → integer_part (c ∷ (s ++ t)) ≡ some (c ∷ s, t)
integer_part-numeral n c s t num stop = elim (Bool-cases (c == 48)) [
  | inl zero_first ↦ elim num.no_zero [
    | inl other ↦ absurd cc
    | inr alone ↦ let first = (==_iff c 48).0 zero_first in rw (alone, first) refl
  ]
  | inr other ↦
      rw (other, num.leading)
        (ap some (span_digits-numeral (c ∷ s) t (rw (num.leading, num.others) refl) stop))
]

fraction_part-ends : (t : Text) → number_ends t ≡ true → fraction_part t ≡ ([], t)
fraction_part-ends [] stop = refl
fraction_part-ends (c ∷ t) stop = let other : (c == 46) ≡ false = ground arith in rw other refl

exponent_part-ends : (t : Text) → number_ends t ≡ true → exponent_part t ≡ ([], t)
exponent_part-ends [] stop = refl
exponent_part-ends (c ∷ t) stop =
    let other : (c == 101 || c == 69) ≡ false = ground arith in rw other refl

number_of-numeral :
    (negative : Bool) (n c : ℕ) (s t : Text)
    → IsNumeral n c s
    → number_ends t ≡ true
    → number_of negative (integer_part (c ∷ (s ++ t))) ≡ read (int (signed negative n)) t
number_of-numeral negative n c s t num stop =
    rw (integer_part-numeral n c s t num stop, fraction_part-ends t stop, exponent_part-ends t stop)
      (ap (λ k. read (int (signed negative k)) t) num.denotes)

pub read_number-int_text :
    (n : ℤ) (t : Text) → number_ends t ≡ true → read_number (int_text n ++ t) ≡ read (int n) t
unfolding read_number int_text
read_number-int_text (pos n) t stop =
    let (c, s, num, eq) = decimal-IsNumeral n in
    let unsigned : (c == 45) ≡ false = ground (arith, num.leading) in
    rw (eq, unsigned) (number_of-numeral false n c s t num stop)
read_number-int_text (negsuc n) t stop =
    let (c, s, num, eq) = decimal-IsNumeral (suc n) in
    rw eq (number_of-numeral true (suc n) c s t num stop)
