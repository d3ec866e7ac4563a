-- ===== src/Jwt/Laws.antt =====
-- What `JwtValidator` accepts.
use key_cloak_sdk.Common.{
  ℕ, ◌≡◌, ◌≤◌, ◌<◌, refl, [], ◌∷◌, Str, lit, length, ltb, arith, ◌⊎◌, inl, inr, Bool-cases,
}
use key_cloak_sdk.Values.Json.{Value, Members}
use key_cloak_sdk.Errors.{Thrown, SdkError, sdk, sdk_error}
use key_cloak_sdk.Errors.Mapping.{class_of}
use key_cloak_sdk.Outcome.{ok, raise, Outcome-cases}
use key_cloak_sdk.Effects.{Eff}
use key_cloak_sdk.Jwt.{
  JwtValidator, JwtValidatorOptions, VerifyOptions, validated, verify_options, validation_error,
  too_long, checked, validate,
}

-- What jose is to be asked: the pinned algorithms, the issuer, the audience, the tolerance, and `exp`.
abbrev pub pinned : JwtValidatorOptions → VerifyOptions
pinned o = record {
  algorithms = o.allowed_algs;
  issuer = o.issuer;
  audience = o.audience;
  clock_tolerance = o.clock_skew_seconds;
  required_claims = lit "exp" ∷ [];
}

module _ {W : Type 0} (verify : Str → ℕ → VerifyOptions → Eff W Members)
    (value_text : Value → Str) where
  -- A token is accepted exactly where it is within the cap and `jwtVerify`, asked with the
  -- validator's algorithms, issuer, audience and clock tolerance and with `exp` as a claim that must
  -- be there, gives a payload, and it is handed on with the claims of that payload. In the other
  -- two cases, a token over the cap and one that `jwtVerify` refuses, a
  -- `KeycloakTokenValidationError` is raised; and for a token over the cap `jwtVerify` is not asked.
  pub validate_lem :
      (v : JwtValidator) (token : Str) (w : W)
      → let called = validate verify value_text v token w in
        let asked = verify token v.keys (pinned v.opts) w in
        ((payload : Members) × (length token ≤ 256000)
          × (asked.0 ≡ ok payload)
          × (called.0 ≡ ok (validated value_text payload)))
        ⊎ ((e : Thrown) × (256000 < length token)
            × (called ≡ (raise e, w))
            × (class_of e ≡ sdk SdkError.token_validation))
        ⊎ ((cause e : Thrown) × (asked.0 ≡ raise cause)
            × (called.0 ≡ raise e)
            × (class_of e ≡ sdk SdkError.token_validation))
  unfolding validate checked validation_error sdk_error verify_options
  validate_lem v token w = elim (Bool-cases (ltb 256000 (length token))) [
    | inl long ↦
        inr (inl (validation_error too_long, ground arith, rw (long, validate, checked) refl, refl))
    | inr short ↦ elim (Outcome-cases (verify token v.keys (pinned v.opts) w).0) [
      | inl (payload, e) ↦
          inl (payload, ground arith, e, rw (short, verify_options, e, validate, checked) refl)
      | inr (x, e) ↦ inr (
          inr
            (x, validation_error x, e, rw (short, verify_options, e, validate, checked) refl, refl))
    ]
  ]
