-- ===== src/Tenant/Scope.antt =====
-- Which tenant a context can have: app/http/middleware/tenant.py.
use mathlib.Core.Path.{subst}
use llm_chat_platform.Base.{
  leb, ◌≡◌, ◌↔◌, refl, ap, ℕ, zero, suc, ◌-◌, ◌%◌, ◌==◌, Bool, true, false, not, ◌&&◌, Bool-cases,
  inl, inr, Option, none, some, [], ◌∷◌, Text, text_eq, text_eq_iff, codes, length, length-append,
  is_nil, strip, strip_right, ok, err, value_error, if◌then◌else◌, arith,
}
use llm_chat_platform.Tenant.{
  Claim, text, not_text, Request, is_tenant_char, all_tenant_chars, matches_pattern, pad, replicate,
  validate, validate_or_default, of_header, from_jwt, extract_tenant_id, call_middleware,
  tenant_scope,
}

&&-eq-true : (a b : Bool) → (a && b) ≡ true → (a ≡ true) × (b ≡ true)
&&-eq-true true b h = (refl, h)
&&-eq-true false b h = absurd cc

length-replicate : (n : ℕ) → length (replicate n (codes "=")) ≡ n
length-replicate zero = refl
length-replicate (suc n) = ap suc (length-replicate n)

-- Padding makes the length of any payload a multiple of four, as decoding asks.
length-pad : (payload : Text) → length (pad payload) % 4 ≡ 0
unfolding pad
length-pad payload = elim (Bool-cases (4 - length payload % 4 == 4)) [
  | inl whole ↦ rw whole (ground (arith, whole))
  | inr short ↦
      rw
        (
          short,
          length-append payload (replicate (4 - length payload % 4) (codes "=")),
          length-replicate (4 - length payload % 4),
        )
        (omega arith)
]

module _ (is_space : ℕ → Bool) where
  validate-matches : (value : Claim) → matches_pattern (validate is_space value) ≡ true
  unfolding validate
  validate-matches not_text = refl
  validate-matches (text t) =
      elim (Bool-cases (not (is_nil (strip is_space t)) && matches_pattern (strip is_space t))) [
        | inl passes ↦ rw passes (ground (arith, passes))
        | inr fails ↦ rw fails refl
      ]

  module _ (lower : Text → Text) (claim_of : Text → Option Claim) where
    extract_tenant_id-matches :
        (request : Request)
        → matches_pattern (extract_tenant_id is_space lower claim_of request) ≡ true
    unfolding extract_tenant_id
    extract_tenant_id-matches request =
        from_header request.tenant_header (from_jwt is_space lower claim_of request)
      where
        from_claim :
            (raw : Option Claim)
            → matches_pattern (validate_or_default is_space lower claim_of raw) ≡ true
        from_claim none = refl
        from_claim (some value) = validate-matches value

        from_header :
            (header : Option Text) (raw : Option Claim)
            → matches_pattern (of_header is_space lower claim_of header raw) ≡ true
        from_header none raw = from_claim raw
        from_header (some value) raw = validate-matches (text value)

    -- Around any HTTP request, whatever its headers, the application runs under a tenant of 1 to 64
    -- letters, digits, underscores and hyphens, and the context is restored afterwards.
    pub call_middleware-scoped :
        {A : Type 0} (request : Request) (app : Option Text → A × Option Text) (ctx : Option Text)
        → (tenant : Text) × (matches_pattern tenant ≡ true)
          × (call_middleware is_space lower claim_of true request app ctx
              ≡ ((app (some tenant)).0, ctx))
    unfolding call_middleware
    call_middleware-scoped request app ctx =
        (extract_tenant_id is_space lower claim_of request, extract_tenant_id-matches request, refl)

  module _ (not_space : (c : ℕ) → is_tenant_char c ≡ true → is_space c ≡ false) where
    strip_right-eq : (t : Text) → all_tenant_chars t ≡ true → strip_right is_space t ≡ t
    strip_right-eq [] h = refl
    strip_right-eq (c ∷ t) h =
        let (letter, rest) = &&-eq-true (is_tenant_char c) (all_tenant_chars t) h in
        rw (not_space c letter, strip_right-eq t rest) refl

    strip-eq : (t : Text) → all_tenant_chars t ≡ true → strip is_space t ≡ t
    strip-eq [] h = refl
    strip-eq (c ∷ t) h =
        let (letter, _) = &&-eq-true (is_tenant_char c) (all_tenant_chars t) h in
        rw (not_space c letter) (strip_right-eq (c ∷ t) h)

    validate-eq : (t : Text) → matches_pattern t ≡ true → validate is_space (text t) ≡ t
    unfolding validate
    validate-eq [] h = absurd cc
    validate-eq (c ∷ t) h =
        let (_, bounded) =
          &&-eq-true (leb 1 (length (c ∷ t))) (leb (length (c ∷ t)) 64 && all_tenant_chars (c ∷ t))
            h in
        let (_, letters) =
          &&-eq-true (leb (length (c ∷ t)) 64) (all_tenant_chars (c ∷ t)) bounded in
        rw (strip-eq (c ∷ t) letters, h) refl

    validate_iff :
        (t : Text) → (text_eq (validate is_space (text t)) t ≡ true) ↔ (matches_pattern t ≡ true)
    validate_iff t = (
      λ h.
          subst (λ u. matches_pattern u ≡ true) ((text_eq_iff (validate is_space (text t)) t).0 h)
            (validate-matches (text t)),
      λ h. (text_eq_iff (validate is_space (text t)) t).1 (validate-eq t h),
    )

    -- Where no tenant character is white space, a body runs under exactly the tenant that it asks
    -- for if the text fits the pattern, and is refused with ValueError if it does not; the context
    -- is restored.
    tenant_scope_exact :
        {A : Type 0} (tenant_id : Text) (body : Option Text → A × Option Text) (ctx : Option Text)
        → tenant_scope is_space tenant_id body ctx ≡ (
            if matches_pattern tenant_id
            then ok ((body (some tenant_id)).0, ctx)
            else err value_error)
    unfolding tenant_scope
    tenant_scope_exact tenant_id body ctx = elim (Bool-cases (matches_pattern tenant_id)) [
      | inl fits ↦
          rw (validate-eq tenant_id fits, fits, (text_eq_iff tenant_id tenant_id).1 refl) refl
      | inr unfit ↦ elim (Bool-cases (text_eq (validate is_space (text tenant_id)) tenant_id)) [
        | inl same ↦ let fits = (validate_iff tenant_id).0 same in absurd cc
        | inr changed ↦ rw (changed, unfit) refl
      ]
    ]
