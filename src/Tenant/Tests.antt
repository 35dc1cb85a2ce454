-- ===== src/Tenant/Tests.antt =====
-- A request with a token, a scope, and the theorems there.
use llm_chat_platform.Base.{
  ◌≡◌, refl, ℕ, Bool, true, false, ◌||◌, Option, some, none, Text, text_eq, codes, if◌then◌else◌,
  ◌==◌, arith,
}
use llm_chat_platform.Tenant.{
  Claim, text, Request, is_tenant_char, matches_pattern, pad, extract_tenant_id, call_middleware,
  from_jwt, validate,
}
use llm_chat_platform.Tenant.Scope.{call_middleware-scoped}

abbrev blank : ℕ → Bool
blank c = c == 32 || c == 10

abbrev same : Text → Text
same t = t

-- A stand-in for the decoder: one payload names a tenant.
abbrev decode : Text → Option Claim
decode t = if text_eq t (codes "pay=") then some (text (codes " acme ")) else none

abbrev request : Request
request = record { tenant_header = none; authorization = some (codes "bearer head.pay.sign") }

abbrev read_context : Option Text → Option Text × Option Text
read_context ctx = (ctx, none)

from_token : extract_tenant_id blank same decode request ≡ codes "acme"
unfolding extract_tenant_id from_jwt pad validate
from_token = refl

blank-not_space : (c : ℕ) → is_tenant_char c ≡ true → blank c ≡ false
blank-not_space c h = ground (arith, h)

call_middleware-scoped_example :
    (tenant : Text) × (matches_pattern tenant ≡ true)
    × (call_middleware blank same decode true request read_context none
        ≡ ((read_context (some tenant)).0, none))
call_middleware-scoped_example = call_middleware-scoped blank same decode request read_context none
