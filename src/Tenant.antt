-- ===== src/Tenant.antt =====
-- The tenant of a request: app/http/middleware/tenant.py. A context variable is an optional text
-- (`none` when it was never set); a value is a string or something else. `is_space`, `lower` and the
-- decoding of a token's payload (base64, UTF-8, JSON, `get`) are parameters.
pub mod Scope
mod Tests
use llm_chat_platform.Base.{
  ℕ, zero, suc, ◌+◌, ◌-◌, ◌%◌, ◌++◌, Bool, true, false, not, ◌&&◌, ◌||◌, Option, none, some, List,
  [], ◌∷◌, Text, text_eq, codes, length, take, drop, is_nil, leb, ◌==◌, if◌then◌else◌, Result, ok,
  err, value_error, other, strip,
}

abbrev pub default_tenant : Text
default_tenant = codes "default"

-- `[a-zA-Z0-9_-]`
abbrev pub is_tenant_char : ℕ → Bool
is_tenant_char c =
    leb 97 c && leb c 122
    || (leb 65 c && leb c 90 || (leb 48 c && leb c 57 || (c == 95 || c == 45)))

abbrev pub all_tenant_chars : Text → Bool
all_tenant_chars [] = true
all_tenant_chars (c ∷ t) = is_tenant_char c && all_tenant_chars t

-- `^[a-zA-Z0-9_-]{1,64}$` on a text without white space at its end, where `$` is the end.
abbrev pub matches_pattern : Text → Bool
matches_pattern t = leb 1 (length t) && (leb (length t) 64 && all_tenant_chars t)

-- A header's or a claim's value.
pub data Claim : Type 0 where
  text : Text → Claim
  not_text : Claim

-- The headers of a request that the middleware reads.
pub record Request : Type 0 where
  pub tenant_header : Option Text
  pub authorization : Option Text

-- `token.split(".")`
abbrev pub split_dots : Text → List Text
split_dots [] = [] ∷ []
split_dots (c ∷ t) = elim (split_dots t) [
  | [] ↦ (c ∷ []) ∷ []
  | part ∷ parts ↦ if c == 46 then [] ∷ part ∷ parts else (c ∷ part) ∷ parts
]

abbrev pub replicate : ℕ → Text → Text
replicate zero t = []
replicate (suc n) t = t ++ replicate n t

-- The payload with its padding.
unfoldable pub pad : Text → Text
pad payload =
    if 4 - length payload % 4 == 4
    then payload
    else payload ++ replicate (4 - length payload % 4) (codes "=")

-- `auth.lower().startswith("bearer ")`
abbrev pub is_bearer : (lowered : Text) → Bool
is_bearer lowered = text_eq (take 7 lowered) (codes "bearer ")

abbrev pub text_or_empty : Option Text → Text
text_or_empty none = []
text_or_empty (some t) = t

module _ (is_space : ℕ → Bool) where
  unfoldable pub validate : Claim → Text
  validate not_text = default_tenant
  validate (text t) =
      if not (is_nil (strip is_space t)) && matches_pattern (strip is_space t)
      then strip is_space t
      else default_tenant

  -- `tenant_scope` around a body.
  unfoldable pub tenant_scope :
      {A : Type 0}
      → (tenant_id : Text) → (Option Text → A × Option Text)
      → Option Text
      → Result (A × Option Text)
  unfolding validate
  tenant_scope tenant_id body ctx =
      if text_eq (validate (text tenant_id)) tenant_id
      then ok ((body (some (validate (text tenant_id)))).0, ctx)
      else err value_error

module _ (is_space : ℕ → Bool) (lower : Text → Text) (claim_of : Text → Option Claim) where
  -- The claim of a token of three parts; `claim_of` gives nothing where decoding raises.
  abbrev pub claim_of_parts : List Text → Option Claim
  claim_of_parts (header ∷ payload ∷ signature ∷ []) = claim_of (pad payload)
  claim_of_parts _ = none

  unfoldable pub from_jwt : Request → Option Claim
  unfolding pad
  from_jwt request =
      let auth = text_or_empty request.authorization in
      if is_bearer (lower auth) then claim_of_parts (split_dots (drop 7 auth)) else none

  abbrev pub validate_or_default : Option Claim → Text
  validate_or_default none = default_tenant
  validate_or_default (some raw) = validate is_space raw

  abbrev pub of_header : Option Text → (raw : Option Claim) → Text
  of_header (some value) raw = validate is_space (text value)
  of_header none raw = validate_or_default raw

  unfoldable pub extract_tenant_id : Request → Text
  unfolding validate from_jwt
  extract_tenant_id request = of_header request.tenant_header (from_jwt request)

  -- The middleware around an application that reads and returns the context variable: it restores
  -- the variable that it found.
  unfoldable pub call_middleware :
      {A : Type 0}
      → (is_http : Bool) → Request
      → (Option Text → A × Option Text)
      → Option Text
      → A × Option Text
  unfolding extract_tenant_id
  call_middleware is_http request app ctx =
      let scoped = (app (some (extract_tenant_id request))).0 in
      if is_http then (scoped, ctx) else app ctx

abbrev pub get_tenant_id : Option Text → Text
get_tenant_id none = default_tenant
get_tenant_id (some t) = t

abbrev pub get_tenant_id_strict : Option Text → Result Text
get_tenant_id_strict none = err (other 0)
get_tenant_id_strict (some t) = ok t
