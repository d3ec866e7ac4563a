-- ===== src/Jwt.antt =====
-- node/src/jwt.ts, `JwtValidator`: the checks asked of jose, and the token that is handed on. The
-- key source is named by what it stands for in the state of the world; `jwtVerify` is a parameter.
pub mod Laws
use key_cloak_sdk.Common.{
  ℕ, Option, none, some, List, [], ◌∷◌, ◌++◌, Str, lit, length, ltb, if◌then◌else◌, show,
}
use key_cloak_sdk.Values.{Num}
use key_cloak_sdk.Values.Json.{
  Value, Members, Elements, string, array, get, elements, string_or_undefined, number_or_undefined,
}
use key_cloak_sdk.Errors.{Thrown, SdkError, sdk_error, message_text}
use key_cloak_sdk.Outcome.{Outcome, ok, raise}
use key_cloak_sdk.Tokens.{plain_error}
use key_cloak_sdk.Effects.{Eff, ◌>>=◌, ◌>>◌, pure, throw, attempt}

-- `JWT_MAX_BYTES`
abbrev pub jwt_max_bytes : ℕ
jwt_max_bytes = 256000

pub record JwtValidatorOptions : Type 0 where
  pub issuer : Str
  pub audience : Str
  pub allowed_algs : List Str
  pub clock_skew_seconds : Num
  pub jwks_min_refetch_seconds : Num
  pub read_timeout_ms : Option Num

-- `keys` numbers the key source, which is one object however many validators hold it.
pub record JwtValidator : Type 0 where
  pub keys : ℕ
  pub opts : JwtValidatorOptions

-- The third argument of `jwtVerify`.
pub record VerifyOptions : Type 0 where
  pub algorithms : List Str
  pub issuer : Str
  pub audience : Str
  pub clock_tolerance : Num
  pub required_claims : List Str

pub record ValidatedToken : Type 0 where
  pub subject : Str
  pub audience : List Str
  pub issuer : Str
  pub expires_at : Option Num
  pub issued_at : Option Num
  pub claims : Members

-- `withAudience(audience)`
unfoldable pub with_audience : JwtValidator → Str → JwtValidator
with_audience v audience = record v { opts = record v.opts { audience = audience } }

-- `typeof v === 'string' ? v : ''`
unfoldable pub text_or_empty : Option Str → Str
text_or_empty none = []
text_or_empty (some s) = s

-- `aud.map(String)`
unfoldable pub texts : (Value → Str) → List Value → List Str
texts value_text [] = []
texts value_text (v ∷ vs) = value_text v ∷ texts value_text vs

unfoldable pub audience_of : (Value → Str) → Value → List Str
unfolding texts
audience_of value_text (array vs) = texts value_text (elements vs)
audience_of value_text (string s) = s ∷ []
audience_of value_text _ = []

-- The object that `validate` returns; `value_text` is `String` of a value.
unfoldable pub validated : (Value → Str) → Members → ValidatedToken
unfolding audience_of text_or_empty
validated value_text payload = record {
  subject = text_or_empty (string_or_undefined (get payload (lit "sub")));
  audience = audience_of value_text (get payload (lit "aud"));
  issuer = text_or_empty (string_or_undefined (get payload (lit "iss")));
  expires_at = number_or_undefined (get payload (lit "exp"));
  issued_at = number_or_undefined (get payload (lit "iat"));
  claims = payload;
}

-- What is asked of `jwtVerify`.
unfoldable pub verify_options : JwtValidatorOptions → VerifyOptions
verify_options opts = record {
  algorithms = opts.allowed_algs;
  issuer = opts.issuer;
  audience = opts.audience;
  clock_tolerance = opts.clock_skew_seconds;
  required_claims = lit "exp" ∷ [];
}

-- The exception of the `catch` of `validate`.
unfoldable pub validation_error : Thrown → Thrown
validation_error e =
    sdk_error SdkError.token_validation (lit "JWT validation failed: " ++ message_text e) e

-- The exception for a token over the cap.
unfoldable pub too_long : Thrown
too_long = plain_error (lit "token exceeds " ++ (show jwt_max_bytes ++ lit " bytes"))

-- `verify token keys options` is `jwtVerify`, whose answer is the payload.
module _ {W : Type 0} (verify : Str → ℕ → VerifyOptions → Eff W Members)
    (value_text : Value → Str) where
  -- The `try` of `validate`.
  unfoldable pub checked : JwtValidator → Str → Eff W ValidatedToken
  checked v token = if ltb jwt_max_bytes (length token) then throw too_long else (do
    payload ← verify token v.keys (verify_options v.opts)
    pure (validated value_text payload))

  -- `validate(token)`
  unfoldable pub validate : JwtValidator → Str → Eff W ValidatedToken
  unfolding checked
  validate v token = attempt (checked v token) (λ e. throw (validation_error e))
