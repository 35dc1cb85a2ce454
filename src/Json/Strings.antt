-- ===== src/Json/Strings.antt =====
-- A string that was printed is read back.
use llm_chat_platform.Base.{
  ℕ, suc, ◌+◌, ◌*◌, ◌/◌, ◌%◌, ◌≤◌, ◌<◌, ◌≡◌, refl, inl, inr, Bool, true, false, ◌&&◌, ◌||◌, List,
  [], ◌∷◌, ◌++◌, append_assoc, some, none, Text, ltb, leb, ◌==◌, if◌then◌else◌, Bool-cases,
  &&-eq-true, arith, ltb→lt, ltb→ge, ap, ◌∙◌, sym, ==_iff,
}
use mathlib.Core.Path.{subst}
use llm_chat_platform.Json.{hex_digit}
use llm_chat_platform.Json.Ascii.{
  utf16_unit, high_unit, low_unit, coded_escape, ascii_escape, ascii_chars,
}
use llm_chat_platform.Json.Scan.{
  Reading, read, malformed, out_of_fuel, Piece, plain, unit, is_high, is_low, joined, join_pieces,
  hex_value, put_piece, ScanState, normal, escaped, in_hex, scan, read_string, short_escape,
  ScanStep, go, stop, broken, scan_step,
}

-- A character that is not a surrogate.
abbrev pub is_scalar : ℕ → Bool
is_scalar c = ltb c 55296 || (ltb 57343 c && ltb c 1114112)

abbrev pub all_scalar : Text → Bool
all_scalar [] = true
all_scalar (c ∷ s) = is_scalar c && all_scalar s

hex_value-hex_digit : (d : ℕ) → d < 16 → hex_value (hex_digit d) ≡ some d
unfolding hex_digit
hex_value-hex_digit d h = ground arith

abbrev scan_on : ScanStep → Text → Reading (List Piece)
scan_on (go p next) t = put_piece p (scan next t)
scan_on stop t = read [] t
scan_on broken t = malformed

scan_lem :
    (s : ScanState) (c : ℕ) (t : Text) (st : ScanStep)
    → scan_step s c ≡ st
    → scan s (c ∷ t) ≡ scan_on st t
unfolding scan
scan_lem s c t (go p next) e = rw (e, scan) refl
scan_lem s c t stop e = rw (e, scan) refl
scan_lem s c t broken e = rw (e, scan) refl

put_piece-none : (r : Reading (List Piece)) → put_piece none r ≡ r
put_piece-none (read ps rest) = refl
put_piece-none malformed = refl
put_piece-none out_of_fuel = refl

-- A step that adds no piece.
scan_quietly :
    (s next : ScanState) (c : ℕ) (t : Text)
    → scan_step s c ≡ go none next
    → scan s (c ∷ t) ≡ scan next t
scan_quietly s next c t e = scan_lem s c t (go none next) e ∙ put_piece-none (scan next t)

hex_step :
    (left value d : ℕ)
    → d < 16
    → scan_step (in_hex (suc left) value) (hex_digit d) ≡ go none (in_hex left (16 * value + d))
hex_step left value d h = rw (hex_value-hex_digit d h) refl

scan-utf16_unit :
    (u : ℕ) (t : Text)
    → u < 65536
    → scan normal (utf16_unit u ++ t) ≡ put_piece (some (unit u)) (scan normal t)
unfolding utf16_unit
scan-utf16_unit u t h =
    let whole : 16 * (16 * (16 * (16 * 0 + u / 4096) + u / 256 % 16) + u / 16 % 16) + u % 16 ≡ u =
      omega arith in
    let last : scan_step (in_hex 0 (16 * (16 * (16 * 0 + u / 4096) + u / 256 % 16) + u / 16 % 16))
          (hex_digit (u % 16))
        ≡ go (some (unit u)) normal =
      rw (hex_value-hex_digit (u % 16) (omega arith), whole) refl in
    scan_quietly normal escaped 92 _ refl
    ∙ scan_quietly escaped (in_hex 3 0) 117 _ refl
    ∙ scan_quietly _ _ _ _ (hex_step 2 0 (u / 4096) (omega arith))
    ∙ scan_quietly _ _ _ _ (hex_step 1 _ (u / 256 % 16) (omega arith))
    ∙ scan_quietly _ _ _ _ (hex_step 0 _ (u / 16 % 16) (omega arith))
    ∙ scan_lem _ _ t _ last

-- What `scan` makes of a printed character.
abbrev pub put_pieces : List Piece → Reading (List Piece) → Reading (List Piece)
put_pieces [] r = r
put_pieces (p ∷ ps) r = put_piece (some p) (put_pieces ps r)

abbrev is_printable : ℕ → Bool
is_printable c = leb 32 c && leb c 126

abbrev is_control : ℕ → Bool
is_control c = c == 10 || (c == 13 || (c == 9 || (c == 12 || c == 8)))

abbrev coded_pieces : ℕ → List Piece
coded_pieces c = if ltb c 65536 then unit c ∷ [] else unit (high_unit c) ∷ unit (low_unit c) ∷ []

abbrev pieces : ℕ → List Piece
pieces c = if is_printable c || is_control c then plain c ∷ [] else coded_pieces c

scan-coded_escape :
    (c : ℕ) (t : Text)
    → c < 1114112
    → scan normal (coded_escape c ++ t) ≡ put_pieces (coded_pieces c) (scan normal t)
scan-coded_escape c t h = elim (Bool-cases (ltb c 65536)) [
  | inl small ↦ rw small (scan-utf16_unit c t (ltb→lt c 65536 small))
  | inr large ↦
      let big = ltb→ge c 65536 large in
      rw large (
        rw append_assoc (
          scan-utf16_unit (high_unit c) _ (omega arith)
          ∙ ap (λ r. put_piece (some (unit (high_unit c))) r)
              (scan-utf16_unit (low_unit c) t (omega arith))))
]

escape_step :
    (c d : ℕ) (t : Text)
    → short_escape c ≡ some d
    → (c == 117) ≡ false
    → scan normal (92 ∷ c ∷ t) ≡ put_piece (some (plain d)) (scan normal t)
escape_step c d t short other =
    scan_quietly normal escaped 92 _ refl
    ∙ scan_lem escaped c t (go (some (plain d)) normal) (rw (other, short) refl)

plain_step :
    (c : ℕ) (t : Text)
    → (c == 34) ≡ false
    → (c == 92) ≡ false
    → ltb c 32 ≡ false
    → scan normal (c ∷ t) ≡ put_piece (some (plain c)) (scan normal t)
plain_step c t a b d = scan_lem normal c t (go (some (plain c)) normal) (rw (a, b, d) refl)

-- Reading what was printed for the character gives its pieces.
abbrev Scans : Text → ℕ → Type 0
Scans t c = scan normal (ascii_escape c ++ t) ≡ put_pieces (pieces c) (scan normal t)

-- The case `c == k` is a run; in the others the test is known to fail.
Scans-unless : (t : Text) (k c : ℕ) → Scans t k → ((c == k) ≡ false → Scans t c) → Scans t c
Scans-unless t k c known other = elim (Bool-cases (c == k)) [
  | inl same ↦ subst (λ x. Scans t x) (sym ((==_iff c k).0 same)) known
  | inr differs ↦ other differs
]

scan-ascii_escape : (t : Text) (c : ℕ) → c < 1114112 → Scans t c
unfolding ascii_escape
scan-ascii_escape t c h = Scans-unless t 34 c (escape_step 34 34 t refl refl) λ n34.
    Scans-unless t 92 c (escape_step 92 92 t refl refl) λ n92.
      Scans-unless t 10 c (escape_step 110 10 t refl refl) λ n10.
        Scans-unless t 13 c (escape_step 114 13 t refl refl) λ n13.
          Scans-unless t 9 c (escape_step 116 9 t refl refl) λ n9.
            Scans-unless t 12 c (escape_step 102 12 t refl refl) λ n12.
              Scans-unless t 8 c (escape_step 98 8 t refl refl) λ n8.
                elim (Bool-cases (is_printable c)) [
                  | inl printable ↦
                      rw (ascii_escape, n34, n92, n10, n13, n9, n12, n8, printable)
                        (plain_step c t n34 n92 (ground arith))
                  | inr coded ↦
                      rw (ascii_escape, n34, n92, n10, n13, n9, n12, n8, coded)
                        (scan-coded_escape c t h)
                ]

put_pieces-read : (ps qs : List Piece) (t : Text) → put_pieces ps (read qs t) ≡ read (ps ++ qs) t
put_pieces-read [] qs t = refl
put_pieces-read (p ∷ ps) qs t = ap (λ r. put_piece (some p) r) (put_pieces-read ps qs t)

abbrev all_pieces : Text → List Piece
all_pieces [] = []
all_pieces (c ∷ s) = pieces c ++ all_pieces s

scan-ascii_chars :
    (s t : Text) → all_scalar s ≡ true → scan normal (ascii_chars s ++ t) ≡ read (all_pieces s) t
unfolding ascii_chars
scan-ascii_chars [] t h = scan_lem normal 34 t stop refl
scan-ascii_chars (c ∷ s) t h =
    let (scalar, more) = &&-eq-true {a = is_scalar c} h in
    rw append_assoc (
      scan-ascii_escape _ c (ground arith)
      ∙ ap (put_pieces (pieces c)) (scan-ascii_chars s t more)
      ∙ put_pieces-read (pieces c) (all_pieces s) t)

join_pieces-unit :
    (u : ℕ) (ps : List Piece) → is_high u ≡ false → join_pieces (unit u ∷ ps) ≡ u ∷ join_pieces ps
unfolding join_pieces
join_pieces-unit u [] h = refl
join_pieces-unit u (plain c ∷ ps) h = refl
join_pieces-unit u (unit w ∷ ps) h = rw h refl

join_pieces-pair :
    (u w : ℕ) (ps : List Piece)
    → (is_high u && is_low w) ≡ true
    → join_pieces (unit u ∷ unit w ∷ ps) ≡ joined u w ∷ join_pieces ps
unfolding join_pieces
join_pieces-pair u w ps h = rw h refl

joined-units : (c : ℕ) → 65536 ≤ c → joined (high_unit c) (low_unit c) ≡ c
joined-units c h = omega arith

join_pieces-coded :
    (c : ℕ) (ps : List Piece)
    → is_scalar c ≡ true
    → join_pieces (coded_pieces c ++ ps) ≡ c ∷ join_pieces ps
join_pieces-coded c ps h = elim (Bool-cases (ltb c 65536)) [
  | inl small ↦ rw small (join_pieces-unit c ps (ground arith))
  | inr large ↦
      let big = ltb→ge c 65536 large in
      rw large (
        join_pieces-pair (high_unit c) (low_unit c) ps (ground arith)
        ∙ ap (λ x. x ∷ join_pieces ps) (joined-units c big))
]

join_pieces-pieces :
    (c : ℕ) (ps : List Piece)
    → is_scalar c ≡ true
    → join_pieces (pieces c ++ ps) ≡ c ∷ join_pieces ps
unfolding join_pieces
join_pieces-pieces c ps h = elim (Bool-cases (is_printable c || is_control c)) [
  | inl bare ↦ rw bare refl
  | inr coded ↦ rw coded (join_pieces-coded c ps h)
]

join_pieces-all_pieces : (s : Text) → all_scalar s ≡ true → join_pieces (all_pieces s) ≡ s
unfolding join_pieces
join_pieces-all_pieces [] h = refl
join_pieces-all_pieces (c ∷ s) h =
    let (scalar, more) = &&-eq-true {a = is_scalar c} h in
    join_pieces-pieces c (all_pieces s) scalar ∙ ap (λ r. c ∷ r) (join_pieces-all_pieces s more)

-- A printed string, behind its opening quote, is read off the front of any text.
pub read_string-ascii_chars :
    (s t : Text) → all_scalar s ≡ true → read_string (ascii_chars s ++ t) ≡ read s t
unfolding read_string
read_string-ascii_chars s t h =
    rw (scan-ascii_chars s t h) (ap (λ r. read r t) (join_pieces-all_pieces s h))
