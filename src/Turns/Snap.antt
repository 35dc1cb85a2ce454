-- ===== src/Turns/Snap.antt =====
-- Snapping the assembler's bound back to the start of a turn.
use llm_chat_platform.Base.{
  ℕ, suc, ◌+◌, ◌<◌, ◌≤◌, ◌≡◌, ◌≢◌, refl, sym, ap, ◌∙◌, inl, inr, true, false, not, List, [], ◌∷◌,
  ◌++◌, some, length, drop, take, take-append-drop, flat_map, select, All, arith, ltb,
  if◌then◌else◌, ok,
}
use mathlib.Core.Path.{subst}
use llm_chat_platform.History.{HistoryMessage}
use llm_chat_platform.History.Bounds.{StrictlyIncreasing}
use llm_chat_platform.Turns.{
  TurnUnit, messages_of, unit_of, is_well_formed, first_sequence, covers, group_turns,
  index_covering, index_of_unit_covering, snap_window, WindowPartition, window_from,
  build_materialized_window,
}
use llm_chat_platform.Turns.Grouping.{IsUnit, group_turns_total}

pub StrictlyIncreasing-tail :
    (m : HistoryMessage) (ms : List HistoryMessage)
    → StrictlyIncreasing (m ∷ ms)
    → StrictlyIncreasing ms
StrictlyIncreasing-tail m [] h = tt
StrictlyIncreasing-tail m (n ∷ ms) h = h.1

-- The first message stands below every later one.
head-lt :
    (m b : HistoryMessage) (pre rest : List HistoryMessage)
    → StrictlyIncreasing (m ∷ (pre ++ b ∷ rest))
    → m.sequence < b.sequence
head-lt m b [] rest h = h.0
head-lt m b (p ∷ pre) rest h = omega (arith, head-lt p b pre rest h.1, h.0)

-- The unit that covers the message `b`, found by the first loop, and what stands in it before `b`.
record Snapped (us : List TurnUnit) (i : ℕ) (b : HistoryMessage) (rest : List HistoryMessage)
    : Type 0 where
  k : ℕ
  found : index_covering b.sequence us i ≡ some (i + k)
  unit : TurnUnit
  later : List TurnUnit
  span : drop k us ≡ unit ∷ later
  snap : List HistoryMessage
  flat : flat_map messages_of (unit ∷ later) ≡ snap ++ b ∷ rest
  first : ℕ
  opens : first_sequence unit ≡ ok first
  snapped : (if ltb first b.sequence then 1 else 0) ≡ length snap

Snapped-here :
    (u : TurnUnit) (us : List TurnUnit) (i first : ℕ) (b : HistoryMessage)
    (snap rest : List HistoryMessage)
    → covers b.sequence u.messages ≡ true
    → flat_map messages_of (u ∷ us) ≡ snap ++ b ∷ rest
    → first_sequence u ≡ ok first
    → (if ltb first b.sequence then 1 else 0) ≡ length snap
    → Snapped (u ∷ us) i b rest
unfolding index_covering
Snapped-here u us i first b snap rest c f o s = record {
  k = 0;
  found = rw c (ap some (omega arith));
  unit = u;
  later = us;
  span = refl;
  snap = snap;
  flat = f;
  first = first;
  opens = o;
  snapped = s;
}

Snapped-there :
    (u : TurnUnit) (us : List TurnUnit) (i : ℕ) (b : HistoryMessage) (rest : List HistoryMessage)
    → covers b.sequence u.messages ≡ false
    → Snapped us (suc i) b rest
    → Snapped (u ∷ us) i b rest
unfolding index_covering
Snapped-there u us i b rest c s = record {
  k = suc s.k;
  found = rw c (s.found ∙ ap some (omega arith));
  unit = s.unit;
  later = s.later;
  span = s.span;
  snap = s.snap;
  flat = s.flat;
  first = s.first;
  opens = s.opens;
  snapped = s.snapped;
}

-- The step for each shape of the first unit, with what the recursion gives.
module _ (us : List TurnUnit) (b : HistoryMessage) (rest : List HistoryMessage) (i : ℕ)
    (later : (pre : List HistoryMessage)
      → flat_map messages_of us ≡ pre ++ b ∷ rest
      → Snapped us (suc i) b rest) where
  single_step :
      (m : HistoryMessage) (pre : List HistoryMessage)
      → StrictlyIncreasing (m ∷ flat_map messages_of us)
      → m ∷ flat_map messages_of us ≡ pre ++ b ∷ rest
      → Snapped (unit_of (m ∷ []) ∷ us) i b rest
  single_step m [] inc f =
      Snapped-here _ us i m.sequence b [] rest (ground (arith, f)) f refl (ground (arith, f))
  single_step m (p ∷ pre) inc f =
      let below = head-lt p b pre rest (subst StrictlyIncreasing f inc) in
      Snapped-there _ us i b rest (ground (arith, f, below)) (later pre cc)

  pair_step :
      (m n : HistoryMessage) (pre : List HistoryMessage)
      → StrictlyIncreasing (m ∷ n ∷ flat_map messages_of us)
      → m ∷ n ∷ flat_map messages_of us ≡ pre ++ b ∷ rest
      → Snapped (unit_of (m ∷ n ∷ []) ∷ us) i b rest
  pair_step m n [] inc f =
      Snapped-here _ us i m.sequence b [] rest (ground (arith, f)) f refl (ground (arith, f))
  pair_step m n (p ∷ []) inc f =
      let below = head-lt p b [] rest (subst StrictlyIncreasing f inc) in
      Snapped-here _ us i m.sequence b (m ∷ []) rest (ground (arith, f)) (ground (arith, f)) refl
        (ground (arith, f, below))
  pair_step m n (p ∷ q ∷ pre) inc f =
      let below = head-lt p b (q ∷ pre) rest (subst StrictlyIncreasing f inc) in
      let below' =
        head-lt q b pre rest
          (StrictlyIncreasing-tail p (q ∷ (pre ++ b ∷ rest)) (subst StrictlyIncreasing f inc)) in
      Snapped-there _ us i b rest (ground (arith, f, below, below')) (later pre cc)

Snapped-of_mem :
    (us : List TurnUnit) (pre : List HistoryMessage) (b : HistoryMessage)
    (rest : List HistoryMessage) (i : ℕ)
    → All IsUnit us
    → StrictlyIncreasing (flat_map messages_of us)
    → flat_map messages_of us ≡ pre ++ b ∷ rest
    → Snapped us i b rest
Snapped-of_mem [] [] b rest i units inc f = cc
Snapped-of_mem [] (p ∷ pre) b rest i units inc f = cc
Snapped-of_mem (u ∷ us) pre b rest i (inl (m, e), units) inc f =
    let inc' = rw e at inc in
    rw e (
      single_step us b rest i
        (λ pre'. Snapped-of_mem us pre' b rest (suc i) units (StrictlyIncreasing-tail m _ inc')) m
        pre inc' (rw e at f))
Snapped-of_mem (u ∷ us) pre b rest i (inr (m, n, e, turn), units) inc f =
    let inc' = rw e at inc in
    rw e (
      pair_step us b rest i
        (λ pre'. Snapped-of_mem us pre' b rest (suc i) units (
          StrictlyIncreasing-tail n _
            (StrictlyIncreasing-tail m (n ∷ flat_map messages_of us) inc')))
        m n pre inc' (rw e at f))

-- What the window over a history is, when the assembler kept its suffix `bounded`: the grouped
-- units from the one that holds the first bounded message on, filtered by their shape.
pub record IsWindow (all_messages bounded : List HistoryMessage) (p : WindowPartition)
    : Type 0 where
  pub grouped : p.grouped ≡ group_turns all_messages
  pub before : List TurnUnit
  pub span : List TurnUnit
  pub split : p.grouped ≡ before ++ span
  pub snap : List HistoryMessage
  pub covers_bounded : flat_map messages_of span ≡ snap ++ bounded
  pub snapped : p.snapped_in_turns ≡ length snap
  pub snapped_once : p.snapped_in_turns ≤ 1
  pub window_units : p.window_units ≡ select is_well_formed span
  pub excluded_units : p.excluded_units ≡ before ++ select (λ u. not (is_well_formed u)) span
  pub window : p.window ≡ flat_map messages_of p.window_units

snap_window-IsWindow :
    (ms bs : List HistoryMessage) (b : HistoryMessage)
    → Snapped (group_turns ms) 0 b bs
    → (p : WindowPartition) × (snap_window (group_turns ms) b.sequence ≡ ok p)
      × IsWindow ms (b ∷ bs) p
unfolding snap_window
snap_window-IsWindow ms bs b s =
    let found : index_covering b.sequence (group_turns ms) 0 ≡ some s.k =
      s.found ∙ ap some (omega arith) in
    let units = select is_well_formed (s.unit ∷ s.later) in
    (
      record {
        window = flat_map messages_of units;
        window_units = units;
        excluded_units =
            take s.k (group_turns ms) ++ select (λ u. not (is_well_formed u)) (s.unit ∷ s.later);
        grouped = group_turns ms;
        snapped_in_turns = if ltb s.first b.sequence then 1 else 0;
      },
      rw (found, index_of_unit_covering, s.span, s.opens) refl,
      record {
        grouped = refl;
        before = take s.k (group_turns ms);
        span = s.unit ∷ s.later;
        split =
            sym (take-append-drop s.k (group_turns ms))
            ∙ ap (λ t. take s.k (group_turns ms) ++ t) s.span;
        snap = s.snap;
        covers_bounded = s.flat;
        snapped = s.snapped;
        snapped_once = ground arith;
        window_units = refl;
        excluded_units = refl;
        window = refl;
      },
    )

window_from-snap_window :
    (us : List TurnUnit) (b : HistoryMessage) (bs : List HistoryMessage)
    → us ≢ []
    → window_from us (b ∷ bs) ≡ snap_window us b.sequence
window_from-snap_window [] b bs h = absurd (h refl)
window_from-snap_window (u ∷ us) b bs h = refl

units-ne-nil :
    (us : List TurnUnit) (pre : List HistoryMessage) (b : HistoryMessage) (bs : List HistoryMessage)
    → flat_map messages_of us ≡ pre ++ b ∷ bs
    → us ≢ []
units-ne-nil [] [] b bs f e = cc
units-ne-nil [] (p ∷ pre) b bs f e = cc
units-ne-nil (u ∷ us) pre b bs f e = cc

-- A history with strictly increasing sequences, of which the bound kept a suffix that is not empty:
-- the window is built without an error, it starts at the unit that holds the first kept message,
-- at most one message before that one, it is the user-and-assistant turns from there on in order,
-- and `snapped_in_turns` counts the message that the snap brought back.
pub build_materialized_window_snaps :
    (pre bs : List HistoryMessage) (b : HistoryMessage)
    → StrictlyIncreasing (pre ++ b ∷ bs)
    → (p : WindowPartition) × (build_materialized_window (pre ++ b ∷ bs) (b ∷ bs) ≡ ok p)
      × IsWindow (pre ++ b ∷ bs) (b ∷ bs) p
unfolding build_materialized_window
build_materialized_window_snaps pre bs b inc =
    let ms = pre ++ b ∷ bs in
    let (flat, units, apart) = group_turns_total ms in
    let s = Snapped-of_mem (group_turns ms) pre b bs 0 units (rw flat inc) flat in
    let (p, built, is_window) = snap_window-IsWindow ms bs b s in
    (
      p,
      window_from-snap_window (group_turns ms) b bs (units-ne-nil _ pre b bs flat) ∙ built,
      is_window,
    )
