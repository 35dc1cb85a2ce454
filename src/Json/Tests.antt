-- ===== src/Json/Tests.antt =====
-- Runs of the reader and of the printer.
use llm_chat_platform.Base.{◌≡◌, refl, some, none, true, [], ◌∷◌, codes}
use llm_chat_platform.Base.Int.{pos, negsuc}
use llm_chat_platform.Json.{null, bool, int, float, str, list, dict, nil, cons, end, field}
use llm_chat_platform.Json.Ascii.{dumps_ascii, sort_value}
use llm_chat_platform.Json.Load.{loads}

spaced :
    loads (codes " { \"a\" : [1, -20 ,2.5e1], \"b\":null , \"a\":true} ")
    ≡ some (dict (field "a" (bool true) (field "b" null end)))
unfolding loads
spaced = refl

floats :
    loads (codes "[0,-0,-7,1.5]")
    ≡ some (
        list (
          cons
            (int (pos 0))
            (cons (int (pos 0)) (cons (int (negsuc 6)) (cons (float (codes "1.5")) nil)))))
unfolding loads
floats = refl

comma_last : loads (codes "[1,]") ≡ none
unfolding loads
comma_last = refl

-- A character beyond the basic plane is two escapes, and one character again.
surrogates :
    loads (dumps_ascii (str (128512 ∷ 34 ∷ 127 ∷ []))) ≡ some (str (128512 ∷ 34 ∷ 127 ∷ []))
unfolding loads dumps_ascii
surrogates = refl

sorted_keys :
    dumps_ascii (sort_value (dict (field "b" null (field "a" (int (pos 12)) end))))
    ≡ codes "{\"a\":12,\"b\":null}"
unfolding sort_value dumps_ascii
sorted_keys = refl
