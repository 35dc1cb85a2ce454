-- ===== src/Base/Strings.antt =====
-- A Python `str` whose length or slices matter is the list of its code points.
use Prim.Native.Nat.{ℕ, ◌≤◌}
use Prim.Native.Char.{code}
use Prim.Native.String.{String}
use mathlib.Core.Path.{◌≡◌}
use mathlib.Core.Bool.{Bool, true, false, ◌&&◌}
use mathlib.Core.Logic.{◌↔◌}
use mathlib.Core.List.{List, [], ◌∷◌, ◌++◌}
use mathlib.Core.Option.{Option, none, some}
use native.Mathlib.Omega.{arith}
use llm_chat_platform.Base.Tests.{◌==◌, if◌then◌else◌}
use llm_chat_platform.Base.Lists.{length, is_nil}

abbrev pub Text : Type 0
Text = List ℕ

-- The code points of a literal.
abbrev pub codes : String → Text
codes String.[] = []
codes (String.◌∷◌ c s) = code c ∷ codes s

abbrev pub text_eq : Text → Text → Bool
text_eq [] [] = true
text_eq [] (y ∷ ys) = false
text_eq (x ∷ xs) [] = false
text_eq (x ∷ xs) (y ∷ ys) = x == y && text_eq xs ys

pub text_eq_iff : (s t : Text) → (text_eq s t ≡ true) ↔ (s ≡ t)
text_eq_iff [] [] = ground arith
text_eq_iff [] (y ∷ ys) = ground arith
text_eq_iff (x ∷ xs) [] = ground arith
text_eq_iff (x ∷ xs) (y ∷ ys) = ground (arith, text_eq_iff xs ys)

-- `t or other`, and `t or None`.
abbrev pub non_empty_or : Text → Text → Text
non_empty_or [] other = other
non_empty_or (c ∷ t) other = c ∷ t

abbrev pub some_unless_empty : Text → Option Text
some_unless_empty [] = none
some_unless_empty (c ∷ t) = some (c ∷ t)

-- `"\n".join(lines)`
unfoldable pub join_lf : List Text → Text
join_lf [] = []
join_lf (l ∷ []) = l
join_lf (l ∷ m ∷ ls) = l ++ (10 ∷ join_lf (m ∷ ls))

-- `"".join(ts)`
abbrev pub concat : List Text → Text
concat [] = []
concat (t ∷ ts) = t ++ concat ts

-- `str.strip`, `lstrip` and `rstrip`, on the Unicode white space of the standard library.
module _ (is_space : ℕ → Bool) where
  abbrev pub strip_left : Text → Text
  strip_left [] = []
  strip_left (c ∷ t) = let rest = strip_left t in if is_space c then rest else c ∷ t

  abbrev pub strip_right : Text → Text
  strip_right [] = []
  strip_right (c ∷ t) =
      let rest = strip_right t in if is_space c && is_nil rest then [] else c ∷ rest

  abbrev pub strip : Text → Text
  strip t = strip_right (strip_left t)

  pub length-strip_left : (t : Text) → length (strip_left t) ≤ length t
  length-strip_left [] = omega arith
  length-strip_left (c ∷ t) = ground (arith, length-strip_left t)

  pub length-strip_right : (t : Text) → length (strip_right t) ≤ length t
  length-strip_right [] = omega arith
  length-strip_right (c ∷ t) = ground (arith, length-strip_right t)

  pub length-strip : (t : Text) → length (strip t) ≤ length t
  length-strip t = omega (arith, length-strip_right (strip_left t), length-strip_left t)
