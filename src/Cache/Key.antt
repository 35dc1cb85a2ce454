-- ===== src/Cache/Key.antt =====
-- Two requests that share a key are the same request of the same tenant under the same models.
use llm_chat_platform.Base.{
  suc, ◌≡◌, refl, sym, ap, ◌∙◌, true, List, [], ◌∷◌, ◌++◌, map, Option, none, some, Text, codes,
  length, length-append, arith, &&-eq-true, &&-true,
}
use llm_chat_platform.Chat.{Role, ChatMessage, system, user, assistant, role_text}
use llm_chat_platform.Json.{Value, Items, str, list, dict, cons, end, field, items_of}
use llm_chat_platform.Json.Ascii.{dumps_ascii, sort_value, sort_items}
use llm_chat_platform.Json.Plain.{is_plain, plain_items, all_scalar}
use llm_chat_platform.Json.RoundTrip.{dumps_ascii_injective}
use llm_chat_platform.Cache.{
  CacheSettings, text_or_null, fingerprint_message, fingerprint, cache_key,
}

-- Two texts that end alike, after as many characters, begin alike.
append_cancel :
    (xs ys us vs : Text) → xs ++ us ≡ ys ++ vs → length us ≡ length vs → (xs ≡ ys) × (us ≡ vs)
append_cancel [] [] us vs e same = (refl, e)
append_cancel [] (y ∷ ys) us vs e same = absurd (omega (arith, ap length e, length-append ys vs))
append_cancel (x ∷ xs) [] us vs e same = absurd (omega (arith, ap length e, length-append xs us))
append_cancel (x ∷ xs) (y ∷ ys) us vs e same =
    let tails : xs ++ us ≡ ys ++ vs = cc in
    let (first, second) = append_cancel xs ys us vs tails same in
    let head : x ≡ y = cc in (cc, second)

prefix_cancel : (p us vs : Text) → p ++ us ≡ p ++ vs → us ≡ vs
prefix_cancel [] us vs e = e
prefix_cancel (c ∷ p) us vs e = prefix_cancel p us vs (cc)

role_text_injective : (r r' : Role) → role_text r ≡ role_text r' → r ≡ r'
role_text_injective system system e = refl
role_text_injective system user e = absurd cc
role_text_injective system assistant e = absurd cc
role_text_injective user system e = absurd cc
role_text_injective user user e = refl
role_text_injective user assistant e = absurd cc
role_text_injective assistant system e = absurd cc
role_text_injective assistant user e = absurd cc
role_text_injective assistant assistant e = refl

text_or_null_injective : (o o' : Option Text) → text_or_null o ≡ text_or_null o' → o ≡ o'
text_or_null_injective none none e = refl
text_or_null_injective none (some t) e = absurd cc
text_or_null_injective (some t) none e = absurd cc
text_or_null_injective (some t) (some u) e = cc

-- The fingerprint with its keys in order.
abbrev sorted_message : ChatMessage → Value
sorted_message m =
    dict (field "content" (str m.content) (field "role" (str (role_text m.role)) end))

abbrev sorted_messages : List ChatMessage → Items
sorted_messages ms = items_of (map sorted_message ms)

sort_items-messages :
    (ms : List ChatMessage)
    → sort_items (items_of (map fingerprint_message ms)) ≡ sorted_messages ms
unfolding sort_value
sort_items-messages [] = refl
sort_items-messages (m ∷ ms) = ap (λ r. cons (sorted_message m) r) (sort_items-messages ms)

abbrev sorted_fingerprint : CacheSettings → List ChatMessage → Value
sorted_fingerprint s ms = dict (
    field "bedrock_model" (text_or_null s.bedrock_model) (
      field "bedrock_prompt_version" (str s.bedrock_prompt_version) (
        field "fallback_provider" (text_or_null s.fallback_provider) (
          field "messages" (list (sorted_messages ms)) (
            field "openai_model" (str s.openai_model) (
              field "provider" (str s.provider)
                (field "stub_provider_mode" (str s.stub_provider_mode) end)))))))

sort_value-text_or_null : (o : Option Text) → sort_value (text_or_null o) ≡ text_or_null o
unfolding sort_value
sort_value-text_or_null none = refl
sort_value-text_or_null (some t) = refl

sort_value-fingerprint :
    (s : CacheSettings) (ms : List ChatMessage)
    → sort_value (fingerprint s ms) ≡ sorted_fingerprint s ms
unfolding sort_value fingerprint
sort_value-fingerprint s ms =
    rw
      (
        sort_value-text_or_null s.bedrock_model,
        sort_value-text_or_null s.fallback_provider,
        sort_items-messages ms,
      )
      refl

plain_items-sorted :
    (ms : List ChatMessage)
    → plain_items (items_of (map fingerprint_message ms)) ≡ true
    → plain_items (sorted_messages ms) ≡ true
plain_items-sorted [] h = refl
plain_items-sorted (m ∷ ms) h =
    let (one, others) = &&-eq-true {a = is_plain (fingerprint_message m)} h in
    let (role, content) = &&-eq-true {a = all_scalar (role_text m.role)} one in
    &&-true (&&-true (&&-eq-true content).0 (&&-true role refl)) (plain_items-sorted ms others)

is_plain-sorted :
    (s : CacheSettings) (ms : List ChatMessage)
    → is_plain (fingerprint s ms) ≡ true
    → is_plain (sorted_fingerprint s ms) ≡ true
unfolding fingerprint
is_plain-sorted s ms h =
    let (messages, h1) = &&-eq-true {a = plain_items (items_of (map fingerprint_message ms))} h in
    let (provider, h2) = &&-eq-true {a = all_scalar s.provider} h1 in
    let (fallback, h3) = &&-eq-true {a = is_plain (text_or_null s.fallback_provider)} h2 in
    let (openai, h4) = &&-eq-true {a = all_scalar s.openai_model} h3 in
    let (bedrock, h5) = &&-eq-true {a = is_plain (text_or_null s.bedrock_model)} h4 in
    let (version, h6) = &&-eq-true {a = all_scalar s.bedrock_prompt_version} h5 in
    &&-true bedrock (
      &&-true version (
        &&-true fallback
          (&&-true (plain_items-sorted ms messages) (&&-true openai (&&-true provider h6)))))

sorted_messages_injective :
    (ms ms' : List ChatMessage) → sorted_messages ms ≡ sorted_messages ms' → ms ≡ ms'
sorted_messages_injective [] [] e = refl
sorted_messages_injective [] (m' ∷ ms') e = absurd cc
sorted_messages_injective (m ∷ ms) [] e = absurd cc
sorted_messages_injective (m ∷ ms) (m' ∷ ms') e =
    let rest = sorted_messages_injective ms ms' (cc) in
    let content : m.content ≡ m'.content = cc in
    let role = role_text_injective m.role m'.role (cc) in cc

-- The two requests are one.
pub record SameRequest (s s' : CacheSettings) (ms ms' : List ChatMessage) (tenant tenant' : Text)
    : Type 0 where
  pub same_tenant : tenant ≡ tenant'
  pub same_messages : ms ≡ ms'
  pub same_settings : s ≡ s'

SameRequest-fingerprint :
    (s s' : CacheSettings) (ms ms' : List ChatMessage) (tenant tenant' : Text)
    → tenant ≡ tenant'
    → sorted_fingerprint s ms ≡ sorted_fingerprint s' ms'
    → SameRequest s s' ms ms' tenant tenant'
SameRequest-fingerprint s s' ms ms' tenant tenant' who e =
    let messages : sorted_messages ms ≡ sorted_messages ms' = cc in
    let fallback : text_or_null s.fallback_provider ≡ text_or_null s'.fallback_provider = cc in
    let bedrock : text_or_null s.bedrock_model ≡ text_or_null s'.bedrock_model = cc in
    let f1 : s.provider ≡ s'.provider = cc in
    let f2 : s.openai_model ≡ s'.openai_model = cc in
    let f3 : s.bedrock_prompt_version ≡ s'.bedrock_prompt_version = cc in
    let f4 : s.stub_provider_mode ≡ s'.stub_provider_mode = cc in
    let f5 = text_or_null_injective s.fallback_provider s'.fallback_provider fallback in
    let f6 = text_or_null_injective s.bedrock_model s'.bedrock_model bedrock in
    record {
      same_tenant = who;
      same_messages = sorted_messages_injective ms ms' messages;
      same_settings = cc;
    }

-- Requests with the same key are of the same tenant, with the same messages and under the same
-- models, if the digest is of a fixed length and does not collide on their two fingerprints.
pub cache_key-SameRequest :
    (sha256 : Text → Text) (s s' : CacheSettings) (ms ms' : List ChatMessage)
    (tenant tenant' : Text)
    → is_plain (fingerprint s ms) ≡ true
    → is_plain (fingerprint s' ms') ≡ true
    → ((t u : Text) → length (sha256 t) ≡ length (sha256 u))
    → (sha256 (dumps_ascii (sort_value (fingerprint s ms)))
          ≡ sha256 (dumps_ascii (sort_value (fingerprint s' ms')))
        → dumps_ascii (sort_value (fingerprint s ms))
          ≡ dumps_ascii (sort_value (fingerprint s' ms')))
    → cache_key sha256 s ms tenant ≡ cache_key sha256 s' ms' tenant'
    → SameRequest s s' ms ms' tenant tenant'
unfolding cache_key
cache_key-SameRequest sha256 s s' ms ms' tenant tenant' plain plain' fixed no_collision same =
    let tails = prefix_cancel (codes "chat:response:") _ _ same in
    let (who, ends) = append_cancel tenant tenant' _ _ tails (ap suc (fixed _ _)) in
    let printed = no_collision (cc) in
    let sorted : sorted_fingerprint s ms ≡ sorted_fingerprint s' ms' =
      dumps_ascii_injective (sorted_fingerprint s ms) (sorted_fingerprint s' ms')
        (is_plain-sorted s ms plain) (is_plain-sorted s' ms' plain')
        (ap dumps_ascii (sym (sort_value-fingerprint s ms))
          ∙ printed
          ∙ ap dumps_ascii (sort_value-fingerprint s' ms')) in
    SameRequest-fingerprint s s' ms ms' tenant tenant' who sorted
