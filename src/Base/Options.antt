-- ===== src/Base/Options.antt =====
-- Chains of optional values; `do` blocks on `Option` take their bind from here.
use mathlib.Core.Option.{Option, none, some}

infixl 1 ◌>>=◌
abbrev pub ◌>>=◌ : {A B : Type 0} → Option A → (A → Option B) → Option B
none >>= next = none
some a >>= next = next a
