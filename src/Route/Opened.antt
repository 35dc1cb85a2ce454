-- ===== src/Route/Opened.antt =====
-- Opening the conversation of a request, and where a transaction is interrupted before it commits.
use mathlib.Core.Path.{subst}
use llm_chat_platform.Base.{
  ℕ, ◌≡◌, refl, ◌⊎◌, inl, inr, Bool, true, false, Bool-cases, List, [], ◌∷◌, ◌++◌, Option, none,
  some, Text, text_eq, text_eq_iff, sym, ◌∙◌,
}
use llm_chat_platform.Route.{
  Conversation, Db, Faults, Fresh, Interruption, Tx, not_found, reached, interrupted, ◌>>=◌,
  unless_raised, find_conversation, check_owner, open_conversation,
}

module _ {A B : Type 0} where
  pub >>=-eq-reached :
      (before : Tx A) (next : A → Tx B) {last : B}
      → (before >>= next) ≡ reached last
      → (v : A) × (before ≡ reached v) × (next v ≡ reached last)
  >>=-eq-reached (reached v) next outcome = (v, refl, outcome)
  >>=-eq-reached (interrupted e) next outcome = absurd cc

  pub >>=-eq-interrupted :
      (before : Tx A) (next : A → Tx B) {e : Interruption}
      → (before >>= next) ≡ interrupted e
      → (before ≡ interrupted e) ⊎ ((v : A) × (before ≡ reached v) × (next v ≡ interrupted e))
  >>=-eq-interrupted (reached v) next outcome = inr (v, refl, outcome)
  >>=-eq-interrupted (interrupted x) next outcome = inl cc

pub unless_raised-eq-reached :
    {A : Type 0} (raised : Bool) (a : A) {b : A} → unless_raised raised a ≡ reached b → a ≡ b
unless_raised-eq-reached true a h = absurd cc
unless_raised-eq-reached false a h = cc

pub unless_raised-not_found :
    {A : Type 0} (raised : Bool) (a : A) → unless_raised raised a ≡ interrupted not_found → ⊥
unless_raised-not_found true a h = cc
unless_raised-not_found false a h = cc

-- A computation that never ends in the 404.
abbrev pub Finds : {A : Type 0} → Tx A → Type 0
Finds t = t ≡ interrupted not_found → ⊥

pub >>=-Finds :
    {A B : Type 0} (before : Tx A) (next : A → Tx B)
    → Finds before
    → ((v : A) → Finds (next v))
    → Finds (before >>= next)
>>=-Finds (reached v) next first later h = later v h
>>=-Finds (interrupted e) next first later h = first (cc)

-- A conversation that is new, or one that the tenant has already.
pub data IsOpened (tenant : Text) (fresh : Fresh) (cs : List Conversation)
    : Option ℕ → List Conversation → Type 0 where
  created :
      IsOpened tenant fresh cs none
        (cs ++ (record { id = fresh.conversation; tenant_id = tenant } ∷ []))
  joined :
      (id : ℕ) (c : Conversation)
      → find_conversation id cs ≡ some c
      → c.tenant_id ≡ tenant
      → IsOpened tenant fresh cs (some id) cs

-- The conversation is unknown, or another tenant's.
abbrev pub IsForeign : (tenant : Text) → Option ℕ → List Conversation → Type 0
IsForeign tenant none cs = ⊥
IsForeign tenant (some id) cs =
    (c : Conversation) → find_conversation id cs ≡ some c → text_eq c.tenant_id tenant ≡ false

-- The database with the conversation open, and nothing else.
pub record OpensIn (tenant : Text) (fresh : Fresh) (id : Option ℕ) (db opened : Db) : Type 0 where
  pub opens : IsOpened tenant fresh db.conversations id opened.conversations
  pub same_messages : opened.messages ≡ db.messages
  pub same_usage : opened.usage_events ≡ db.usage_events

module _ (faults : Faults) (tenant : Text) (fresh : Fresh) (db : Db) where
  check_owner-reached :
      (id : ℕ) (found : Option Conversation) (opened : Db)
      → find_conversation id db.conversations ≡ found
      → check_owner tenant db found ≡ reached opened
      → OpensIn tenant fresh (some id) db opened
  check_owner-reached id none opened h e = absurd cc
  check_owner-reached id (some c) opened h e = elim (Bool-cases (text_eq c.tenant_id tenant)) [
    | inr other ↦ absurd cc (e, other)
    | inl own ↦
        let same : Tx.reached db ≡ reached opened = rw own at e in
        let eq : db ≡ opened = cc in
        subst (λ o. OpensIn tenant fresh (some id) db o) eq
          record {
            opens = joined id c h ((text_eq_iff c.tenant_id tenant).0 own);
            same_messages = refl;
            same_usage = refl;
          }
  ]

  pub open_conversation-OpensIn :
      (id : Option ℕ) (opened : Db)
      → open_conversation faults tenant fresh id db ≡ reached opened
      → OpensIn tenant fresh id db opened
  unfolding open_conversation
  open_conversation-OpensIn none opened e =
      let eq = unless_raised-eq-reached faults.conversation_flush _ e in
      subst (λ o. OpensIn tenant fresh none db o) eq
        record { opens = created; same_messages = refl; same_usage = refl }
  open_conversation-OpensIn (some id) opened e =
      let (found, loaded, checked) =
        >>=-eq-reached (unless_raised faults.conversation_load _) _ e in
      check_owner-reached id found opened
        (unless_raised-eq-reached faults.conversation_load _ loaded) checked

  check_owner-foreign :
      (c : Conversation)
      → check_owner tenant db (some c) ≡ interrupted not_found
      → text_eq c.tenant_id tenant ≡ false
  check_owner-foreign c e = elim (Bool-cases (text_eq c.tenant_id tenant)) [
    | inl own ↦ absurd cc (rw own at e)
    | inr other ↦ other
  ]

  pub open_conversation-IsForeign :
      (id : Option ℕ)
      → open_conversation faults tenant fresh id db ≡ interrupted not_found
      → IsForeign tenant id db.conversations
  unfolding open_conversation
  open_conversation-IsForeign none e = unless_raised-not_found faults.conversation_flush _ e
  open_conversation-IsForeign (some id) e =
      elim (>>=-eq-interrupted (unless_raised faults.conversation_load _) _ e) [
        | inl early ↦ absurd (unless_raised-not_found faults.conversation_load _ early)
        | inr (found, loaded, refused) ↦ λ c here. check_owner-foreign c (
            subst (λ o. check_owner tenant db o ≡ interrupted not_found)
              (sym (unless_raised-eq-reached faults.conversation_load _ loaded) ∙ here) refused)
      ]
