-- ===== src/Chunking/Tests.antt =====
-- A text of three windows, and the theorem there.
use llm_chat_platform.Base.{◌≡◌, refl, ℕ, Bool, [], ◌∷◌, codes, ok, ◌==◌}
use llm_chat_platform.Chunking.{split_recursive}
use llm_chat_platform.Chunking.Windows.{IsSplit, split_recursive-IsSplit}

abbrev blank : ℕ → Bool
blank c = c == 32

split_letters :
    split_recursive blank (codes " abcdefgh ") 4 1
    ≡ ok (codes "abcd" ∷ codes "defg" ∷ codes "gh" ∷ [])
unfolding split_recursive
split_letters = refl

split_recursive-IsSplit_example :
    IsSplit blank (codes " abcdefgh ") 4 1 (split_recursive blank (codes " abcdefgh ") 4 1)
split_recursive-IsSplit_example = split_recursive-IsSplit blank (codes " abcdefgh ") 4 1
