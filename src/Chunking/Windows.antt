-- ===== src/Chunking/Windows.antt =====
-- The windows of a split text: `split_recursive` of app/services/rag_chunking.py.
use mathlib.Core.Path.{subst}
use llm_chat_platform.Base.{
  sym, ap, ◌∙◌, ◌++◌, take-append-drop, take-eq_of_le, length-drop, ◌≡◌, ◌≢◌, refl, ℕ, zero, suc,
  ◌+◌, ◌-◌, ◌≤◌, ◌<◌, min, Bool, true, false, Bool-cases, ◌⊎◌, inl, inr, List, [], ◌∷◌, Text,
  length, take, drop, length-take, is_nil, strip, length-strip, All, ltb, leb, Result, ok, err,
  value_error, arith,
}
use llm_chat_platform.Chunking.{piece_of, append_piece, split_from, split_recursive}

module _ (is_space : ℕ → Bool) where
  -- What a window adds in front of the later pieces: its text, stripped, unless that is empty.
  pub data IsAdded (window : Text) (later : List Text) : List Text → Type 0 where
    left_out : strip is_space window ≡ [] → IsAdded window later later
    added : strip is_space window ≢ [] → IsAdded window later (strip is_space window ∷ later)

  -- Windows of `size` characters of the text, each `step` after the one before, up to the first that
  -- reaches the end of the text, which may be shorter.
  pub data IsWindowed (t : Text) (size step : ℕ) : ℕ → List Text → Type 0 where
    final :
        (before window : Text) (pieces : List Text)
        → t ≡ before ++ window
        → 0 < length window
        → length window ≤ size
        → IsAdded window [] pieces
        → IsWindowed t size step (length before) pieces
    more :
        (before window behind : Text) (later pieces : List Text)
        → t ≡ before ++ (window ++ behind)
        → length window ≡ size
        → 0 < length behind
        → IsAdded window later pieces
        → IsWindowed t size step (length before + step) later
        → IsWindowed t size step (length before) pieces

  append_piece-IsAdded :
      (window : Text) (later : List Text) (p : Text)
      → strip is_space window ≡ p
      → IsAdded window later (append_piece is_space p later)
  append_piece-IsAdded window later [] e = left_out e
  append_piece-IsAdded window later (c ∷ p) e =
      subst (λ x. IsAdded window later (x ∷ later)) e (added (λ none. cc (none, e)))

  -- The slice that the loop reads is the last window, or one of full size.
  final_piece :
      (t : Text) (size step start : ℕ)
      → start < length t
      → length t ≤ start + size
      → IsWindowed t size step start (append_piece is_space (piece_of is_space t size start) [])
  final_piece t size step start lt ends =
      let window = take (min (start + size) (length t) - start) (drop start t) in
      let whole : window ≡ drop start t =
        take-eq_of_le _ (drop start t) (omega (arith, length-drop start t)) in
      let begins : length (take start t) ≡ start = omega (arith, length-take start t) in
      subst
        (λ n. IsWindowed t size step n (append_piece is_space (piece_of is_space t size start) []))
        begins
        (final (take start t) window _
          (sym (take-append-drop start t) ∙ ap (λ r. take start t ++ r) (sym whole))
          (omega (arith, ap length whole, length-drop start t))
          (omega (arith, ap length whole, length-drop start t))
          (append_piece-IsAdded window [] _ refl))

  more_pieces :
      (t : Text) (size step start : ℕ) (later : List Text)
      → start + size < length t
      → IsWindowed t size step (start + step) later
      → IsWindowed t size step start (append_piece is_space (piece_of is_space t size start) later)
  more_pieces t size step start later lt rest =
      let n = min (start + size) (length t) - start in
      let begins : length (take start t) ≡ start = omega (arith, length-take start t) in
      let size_eq : n ≡ size = omega arith in
      subst
        (λ k.
          IsWindowed t size step k (append_piece is_space (piece_of is_space t size start) later))
        begins
        (more (take start t) (take n (drop start t)) (drop n (drop start t)) later _
          (sym (take-append-drop start t)
            ∙ ap (λ r. take start t ++ r) (sym (take-append-drop n (drop start t))))
          (omega (arith, length-take n (drop start t), length-drop start t))
          (omega (arith, length-drop n (drop start t), length-drop start t))
          (append_piece-IsAdded (take n (drop start t)) later _ refl)
          (subst (λ k. IsWindowed t size step (k + step) later) (sym begins) rest))

  -- Enough rounds: one for each character that is left.
  split_from-IsWindowed :
      (rounds : ℕ) (t : Text) (size step start : ℕ)
      → 0 < step
      → step ≤ size
      → start < length t
      → length t ≤ start + rounds
      → IsWindowed t size step start (split_from is_space rounds t size step start)
  unfolding split_from
  split_from-IsWindowed zero t size step start h k lt enough = absurd (omega arith)
  split_from-IsWindowed (suc rounds) t size step start h k lt enough =
      let inside : ltb start (length t) ≡ true = ground arith in
      elim (Bool-cases (leb (length t) (start + size))) [
        | inl ends ↦ rw (inside, ends) (final_piece t size step start lt (ground (arith, ends)))
        | inr goes_on ↦
            rw (inside, goes_on)
              (more_pieces t size step start _ (ground (arith, goes_on)) (
                split_from-IsWindowed rounds t size step (start + step) h k
                  (ground (arith, goes_on)) (omega arith)))
      ]

  abbrev pub IsPiece : ℕ → Text → Type 0
  IsPiece size p = (p ≢ []) × (length p ≤ size)

  IsAdded-IsPiece :
      (size : ℕ) (window : Text) (later pieces : List Text)
      → length window ≤ size
      → IsAdded window later pieces
      → All (IsPiece size) later
      → All (IsPiece size) pieces
  IsAdded-IsPiece size window later _ le (left_out e) h = h
  IsAdded-IsPiece size window later _ le (added some_text) h =
      ((some_text, omega (arith, length-strip is_space window)), h)

  IsWindowed-pieces :
      (t : Text) (size step start : ℕ) (pieces : List Text)
      → IsWindowed t size step start pieces
      → All (IsPiece size) pieces
  IsWindowed-pieces t size step _ _ (final before window pieces parts some_text short_window one) =
      IsAdded-IsPiece size window [] pieces short_window one tt
  IsWindowed-pieces t size step _ _
        (more before window behind later pieces parts full left one rest) =
      IsAdded-IsPiece size window later pieces (omega (arith, full)) one
        (IsWindowed-pieces t size step _ later rest)

  -- The ways in which a text is split.
  pub data IsSplit (text : Text) (size overlap : ℕ) : Result (List Text) → Type 0 where
    blank : strip is_space text ≡ [] → IsSplit text size overlap (ok [])
    refused :
        strip is_space text ≢ []
        → (size ≡ 0) ⊎ (size ≤ overlap)
        → IsSplit text size overlap (err value_error)
    short :
        strip is_space text ≢ []
        → length (strip is_space text) ≤ size
        → IsSplit text size overlap (ok (strip is_space text ∷ []))
    long :
        (pieces : List Text)
        → size < length (strip is_space text)
        → overlap < size
        → IsWindowed (strip is_space text) size (size - overlap) 0 pieces
        → All (IsPiece size) pieces
        → IsSplit text size overlap (ok pieces)

  is_nil-eq-true : (t : Text) → is_nil t ≡ true → t ≡ []
  is_nil-eq-true [] h = refl
  is_nil-eq-true (c ∷ t) h = absurd cc

  is_nil-eq-false : (t : Text) → is_nil t ≡ false → t ≢ []
  is_nil-eq-false [] h = absurd cc
  is_nil-eq-false (c ∷ t) h = λ e. cc e

  -- A text of white space has no piece; a size of 0 or at most the overlap is refused otherwise; a
  -- text within the size is one piece; and a longer one is read in windows of that many characters,
  -- each beginning `size - overlap` characters after the one before, up to the one that reaches the
  -- end of the text. The pieces are the windows, stripped, in order, without those of white space;
  -- none is empty or over the size.
  pub split_recursive-IsSplit :
      (text : Text) (size overlap : ℕ)
      → IsSplit text size overlap (split_recursive is_space text size overlap)
  unfolding split_recursive
  split_recursive-IsSplit text size overlap =
      let t = strip is_space text in
      elim (Bool-cases (is_nil t)) [
        | inl none ↦ rw none (blank (is_nil-eq-true t none))
        | inr some ↦ elim (Bool-cases (leb size 0)) [
          | inl zero_size ↦
              rw (some, zero_size)
                (refused (is_nil-eq-false t some) (inl (ground (arith, zero_size))))
          | inr sized ↦ elim (Bool-cases (leb size overlap)) [
            | inl wide ↦
                rw (some, sized, wide)
                  (refused (is_nil-eq-false t some) (inr (ground (arith, wide))))
            | inr narrow ↦ elim (Bool-cases (leb (length t) size)) [
              | inl fits ↦
                  rw (some, sized, narrow, fits)
                    (short (is_nil-eq-false t some) (ground (arith, fits)))
              | inr over ↦
                  let lt : size < length t = ground (arith, over) in
                  let gap : overlap < size = ground (arith, narrow) in
                  let windows =
                    split_from-IsWindowed (length t) t size (size - overlap) 0 (omega arith)
                      (omega arith) (omega arith) (omega arith) in
                  rw (some, sized, narrow, over)
                    (long _ lt gap windows (IsWindowed-pieces t size (size - overlap) 0 _ windows))
            ]
          ]
        ]
      ]
