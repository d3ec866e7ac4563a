-- ===== src/Tests/Jwt.antt =====
-- A token that jose accepts.
use key_cloak_sdk.Common.{ℕ, ◌≡◌, ◌≤◌, ◌<◌, none, [], ◌∷◌, Str, lit, length, ◌⊎◌}
use key_cloak_sdk.Effects.{Eff}
use key_cloak_sdk.Errors.{Thrown, SdkError, sdk}
use key_cloak_sdk.Errors.Mapping.{class_of}
use key_cloak_sdk.Jwt.{JwtValidator, JwtValidatorOptions, VerifyOptions, validated, validate}
use key_cloak_sdk.Jwt.Laws.{validate_lem, pinned}
use key_cloak_sdk.Outcome.{ok, raise}
use key_cloak_sdk.Values.{whole}
use key_cloak_sdk.Values.Json.{end, Value, Members}

abbrev options : JwtValidatorOptions
options = record {
  issuer = lit "https://k/realms/r";
  audience = lit "api";
  allowed_algs = lit "RS256" ∷ [];
  clock_skew_seconds = whole 30;
  jwks_min_refetch_seconds = whole 30;
  read_timeout_ms = none;
}

abbrev validator : JwtValidator
validator = record { keys = 0; opts = options }

abbrev accepts_all : Str → ℕ → VerifyOptions → Eff (Unit {0}) Members
accepts_all token keys opts w = (ok end, w)

abbrev no_text : Value → Str
no_text v = []

validate_lem_example :
    let called = validate accepts_all no_text validator (lit "e30") tt in
    let asked = accepts_all (lit "e30") validator.keys (pinned validator.opts) tt in
    ((payload : Members) × (length (lit "e30") ≤ 256000)
      × (asked.0 ≡ ok payload)
      × (called.0 ≡ ok (validated no_text payload)))
    ⊎ ((e : Thrown) × (256000 < length (lit "e30"))
        × (called ≡ (raise e, tt))
        × (class_of e ≡ sdk SdkError.token_validation))
    ⊎ ((cause e : Thrown) × (asked.0 ≡ raise cause)
        × (called.0 ≡ raise e)
        × (class_of e ≡ sdk SdkError.token_validation))
validate_lem_example = validate_lem accepts_all no_text validator (lit "e30") tt
