-- ===== src/Route/Sse/Wire.antt =====
-- What a client reads of the wire.
use mathlib.Core.Path.{subst}
use llm_chat_platform.Base.{
  join_lf, ℕ, ◌<◌, ◌≡◌, refl, sym, ap, ◌∙◌, inl, inr, Bool, true, false, not, ◌&&◌, Bool-cases,
  &&-eq-true, &&-true, none, some, List, [], ◌∷◌, ◌++◌, append_assoc, append-nil, map, Text, codes,
  ◌==◌, ==_iff, arith,
}
use llm_chat_platform.Route.Streamed.{Frame, token, error_frame, done_frame}
use llm_chat_platform.Route.Sse.{
  put_first, split_lf, data_line, sse, frame_parts, body_text, unify_ends, Block, no_block,
  dispatch, read_blocks, read_events,
}

-- A text without the character.
abbrev pub lacks : ℕ → Text → Bool
lacks c [] = true
lacks c (d ∷ t) = not (d == c) && lacks c t

abbrev all_lack : List Text → Bool
all_lack [] = true
all_lack (l ∷ ls) = lacks 10 l && all_lack ls

lacks-append : (c : ℕ) (s t : Text) → lacks c s ≡ true → lacks c t ≡ true → lacks c (s ++ t) ≡ true
lacks-append c [] t hs ht = ht
lacks-append c (d ∷ s) t hs ht =
    let (one, more) = &&-eq-true {a = not (d == c)} hs in &&-true one (lacks-append c s t more ht)

lacks-split :
    (c : ℕ) (s t : Text) → lacks c (s ++ t) ≡ true → (lacks c s ≡ true) × (lacks c t ≡ true)
lacks-split c [] t h = (refl, h)
lacks-split c (d ∷ s) t h =
    let (one, more) = &&-eq-true {a = not (d == c)} h in
    let (left, right) = lacks-split c s t more in (&&-true one left, right)

-- A line and its end are split off.
split_lf-line :
    (l rest : Text) → lacks 10 l ≡ true → split_lf (l ++ (10 ∷ rest)) ≡ l ∷ split_lf rest
unfolding split_lf
split_lf-line [] rest h = refl
split_lf-line (c ∷ l) rest h =
    let (one, more) = &&-eq-true {a = not (c == 10)} h in
    let other : (c == 10) ≡ false = ground arith in rw (other, split_lf-line l rest more) refl

split_lf-join_lf :
    (l : Text) (ls : List Text) (rest : Text)
    → all_lack (l ∷ ls) ≡ true
    → split_lf (join_lf (l ∷ ls) ++ (10 ∷ rest)) ≡ (l ∷ ls) ++ split_lf rest
unfolding join_lf
split_lf-join_lf l [] rest h = split_lf-line l rest (&&-eq-true {a = lacks 10 l} h).0
split_lf-join_lf l (m ∷ ls) rest h =
    let (one, more) = &&-eq-true {a = lacks 10 l} h in
    rw append_assoc (split_lf-line l _ one ∙ ap (λ r. l ∷ r) (split_lf-join_lf m ls rest more))

-- Splitting gives lines, at least one, which joined are the text.
put_first-lacks :
    (c : ℕ) (ls : List Text)
    → (c == 10) ≡ false
    → all_lack ls ≡ true
    → all_lack (put_first c ls) ≡ true
put_first-lacks c [] other h = rw other refl
put_first-lacks c (l ∷ ls) other h = rw other h

split_lf-lacks : (t : Text) → all_lack (split_lf t) ≡ true
unfolding split_lf
split_lf-lacks [] = refl
split_lf-lacks (c ∷ t) = elim (Bool-cases (c == 10)) [
  | inl end ↦ rw end (split_lf-lacks t)
  | inr other ↦ rw other (put_first-lacks c (split_lf t) other (split_lf-lacks t))
]

abbrev IsCons : List Text → Type 0
IsCons ls = (l : Text) × (rest : List Text) × (ls ≡ l ∷ rest)

split_lf-IsCons : (t : Text) → IsCons (split_lf t)
unfolding split_lf
split_lf-IsCons [] = ([], [], refl)
split_lf-IsCons (c ∷ t) = elim (Bool-cases (c == 10)) [
  | inl end ↦ rw end ([], split_lf t, refl)
  | inr other ↦ let (l, rest, eq) = split_lf-IsCons t in rw (other, eq) (c ∷ l, rest, refl)
]

join_lf-put_first :
    (c : ℕ) (l : Text) (ls : List Text) → join_lf (put_first c (l ∷ ls)) ≡ c ∷ join_lf (l ∷ ls)
unfolding join_lf
join_lf-put_first c l [] = refl
join_lf-put_first c l (m ∷ ls) = refl

join_lf-split_lf : (t : Text) → join_lf (split_lf t) ≡ t
unfolding split_lf join_lf
join_lf-split_lf [] = refl
join_lf-split_lf (c ∷ t) = elim (Bool-cases (c == 10)) [
  | inl end ↦
      let (l, rest, eq) = split_lf-IsCons t in
      let tail : join_lf ([] ∷ split_lf t) ≡ 10 ∷ join_lf (split_lf t) = rw eq refl in
      let first : c ≡ 10 = (==_iff c 10).0 end in rw end (tail ∙ cc (join_lf-split_lf t))
  | inr other ↦
      let (l, rest, eq) = split_lf-IsCons t in
      let head : join_lf (put_first c (split_lf t)) ≡ c ∷ join_lf (split_lf t) =
        rw eq (join_lf-put_first c l rest) in
      rw other (head ∙ ap (λ r. c ∷ r) (join_lf-split_lf t))
]

unify_ends-lacks : (t : Text) → lacks 13 t ≡ true → unify_ends t ≡ t
unify_ends-lacks [] h = refl
unify_ends-lacks (c ∷ []) h =
    let (one, more) = &&-eq-true {a = not (c == 13)} h in
    let other : (c == 13) ≡ false = ground arith in rw other refl
unify_ends-lacks (c ∷ d ∷ t) h =
    let (one, more) = &&-eq-true {a = not (c == 13)} h in
    let other : (c == 13) ≡ false = ground arith in
    rw other (ap (λ r. c ∷ r) (unify_ends-lacks (d ∷ t) more))

data_lines-lack : (ls : List Text) → all_lack ls ≡ true → all_lack (map data_line ls) ≡ true
data_lines-lack [] h = refl
data_lines-lack (l ∷ ls) h =
    let (one, more) = &&-eq-true {a = lacks 10 l} h in &&-true one (data_lines-lack ls more)

abbrev with_lines : Block → List Text → Block
with_lines b ls = record b { lines = b.lines ++ ls }

-- The lines of one frame's data, and the blank line behind them.
read_blocks-data_lines :
    (b : Block) (ls : List Text) (m : Text) (rest : List Text)
    → read_blocks b (map data_line ls ++ ([] ∷ m ∷ rest))
      ≡ dispatch (with_lines b ls) (read_blocks no_block (m ∷ rest))
unfolding read_blocks
read_blocks-data_lines b [] m rest = rw (append-nil b.lines) refl
read_blocks-data_lines b (l ∷ []) m rest = refl
read_blocks-data_lines b (l ∷ l' ∷ ls) m rest =
    read_blocks-data_lines (with_lines b (l ∷ [])) (l' ∷ ls) m rest
    ∙ ap (λ r. dispatch (record b { lines = r }) (read_blocks no_block (m ∷ rest)))
        (append_assoc b.lines (l ∷ []) (l' ∷ ls))

split_lf-data :
    (payload rest : Text)
    → split_lf (join_lf (map data_line (split_lf payload)) ++ (10 ∷ 10 ∷ rest))
      ≡ map data_line (split_lf payload) ++ ([] ∷ split_lf rest)
unfolding split_lf
split_lf-data payload rest =
    let (l, ls, eq) = split_lf-IsCons payload in
    let lack : all_lack (l ∷ ls) ≡ true =
      subst (λ k. all_lack k ≡ true) eq (split_lf-lacks payload) in
    rw eq (
      split_lf-join_lf (data_line l) (map data_line ls) (10 ∷ rest) (data_lines-lack (l ∷ ls) lack))

-- The lines of a frame.
split_lf-sse :
    (event payload rest : Text)
    → lacks 10 event ≡ true
    → split_lf (sse event payload ++ rest)
      ≡ (codes "event: " ++ event) ∷ (map data_line (split_lf payload) ++ ([] ∷ split_lf rest))
unfolding sse
split_lf-sse event payload rest h =
    let lines = map data_line (split_lf payload) in
    let whole : sse event payload ++ rest
        ≡ codes "event: " ++ (event ++ (10 ∷ (join_lf lines ++ (10 ∷ 10 ∷ rest)))) =
      ap (λ r. codes "event: " ++ r)
        (append_assoc event _ rest
          ∙ ap (λ r. event ++ (10 ∷ r)) (append_assoc (join_lf lines) (10 ∷ 10 ∷ []) rest)) in
    ap split_lf whole
    ∙ split_lf-line (codes "event: " ++ event) (join_lf lines ++ (10 ∷ 10 ∷ rest)) h
    ∙ ap (λ r. (codes "event: " ++ event) ∷ r) (split_lf-data payload rest)

read_blocks-sse :
    (event payload rest : Text)
    → lacks 10 event ≡ true
    → read_blocks no_block (split_lf (sse event payload ++ rest))
      ≡ (event, payload) ∷ read_blocks no_block (split_lf rest)
unfolding read_blocks
read_blocks-sse event payload rest h =
    let (l, ls, eq) = split_lf-IsCons payload in
    let (m, ms, eq') = split_lf-IsCons rest in
    let lines : join_lf (l ∷ ls) ≡ payload = ap join_lf (sym eq) ∙ join_lf-split_lf payload in
    rw (split_lf-sse event payload rest h, eq, eq')
      (read_blocks-data_lines (record { event = event; lines = [] }) (l ∷ ls) m ms
        ∙ ap (λ t. (event, t) ∷ read_blocks no_block (m ∷ ms)) lines)

module _ (uuid_text : ℕ → Text) (request_id : ℕ) where
  abbrev parts : Frame → Text × Text
  parts = frame_parts uuid_text request_id

  event-lacks : (c : ℕ) (f : Frame) → c < 97 → lacks c (parts f).0 ≡ true
  event-lacks c (token chunk) h = ground arith
  event-lacks c (error_frame kind none) h = ground arith
  event-lacks c (error_frame kind (some retryable)) h = ground arith
  event-lacks c (done_frame conversation u a sources) h = ground arith

  -- No carriage return in the data of a frame.
  abbrev pub no_return : List Frame → Bool
  no_return [] = true
  no_return (f ∷ fs) = lacks 13 (parts f).1 && no_return fs

  read_blocks-body_text :
      (fs : List Frame)
      → read_blocks no_block (split_lf (body_text uuid_text request_id fs)) ≡ map parts fs
  unfolding body_text read_blocks split_lf
  read_blocks-body_text [] = refl
  read_blocks-body_text (f ∷ fs) =
      read_blocks-sse (parts f).0 (parts f).1 (body_text uuid_text request_id fs)
        (event-lacks 10 f (omega arith))
      ∙ ap (λ r. parts f ∷ r) (read_blocks-body_text fs)

  data_lines-lack_return :
      (ls : List Text) → lacks 13 (join_lf ls) ≡ true → lacks 13 (join_lf (map data_line ls)) ≡ true
  unfolding join_lf
  data_lines-lack_return [] h = refl
  data_lines-lack_return (l ∷ []) h = h
  data_lines-lack_return (l ∷ m ∷ ls) h =
      let (one, more) = lacks-split 13 l (10 ∷ join_lf (m ∷ ls)) h in
      lacks-append 13 l _ one (data_lines-lack_return (m ∷ ls) more)

  sse-lacks :
      (event payload : Text)
      → lacks 13 event ≡ true
      → lacks 13 payload ≡ true
      → lacks 13 (sse event payload) ≡ true
  unfolding sse
  sse-lacks event payload he hp = lacks-append 13 event _ he (
      lacks-append 13 (join_lf (map data_line (split_lf payload))) _
        (data_lines-lack_return (split_lf payload)
          (subst (λ t. lacks 13 t ≡ true) (sym (join_lf-split_lf payload)) hp))
        refl)

  body_text-lacks :
      (fs : List Frame) → no_return fs ≡ true → lacks 13 (body_text uuid_text request_id fs) ≡ true
  unfolding body_text
  body_text-lacks [] h = refl
  body_text-lacks (f ∷ fs) h =
      let (one, more) = &&-eq-true {a = lacks 13 (parts f).1} h in
      lacks-append 13 (sse (parts f).0 (parts f).1) _
        (sse-lacks (parts f).0 (parts f).1 (event-lacks 13 f (omega arith)) one)
        (body_text-lacks fs more)

  -- A client that reads the response as an event stream gets the frames of the generator, each with
  -- its event and its data, line feeds and blanks included, if no data holds a carriage return.
  pub read_events-body_text :
      (fs : List Frame)
      → no_return fs ≡ true
      → read_events (body_text uuid_text request_id fs) ≡ map parts fs
  unfolding read_events
  read_events-body_text fs h =
      rw (unify_ends-lacks (body_text uuid_text request_id fs) (body_text-lacks fs h))
        (read_blocks-body_text fs)
