-- ===== src/Errors.antt =====
-- node/src/errors.ts: the exception hierarchy, the copy of a cause that is kept, and the
-- exception for an HTTP status.
pub mod Scrubbing
pub mod Mapping
use key_cloak_sdk.Common.{
  ℕ, ◌+◌, Bool, true, false, ◌||◌, not, Option, none, some, ◌++◌, Str, lit, show, ltb,
  if◌then◌else◌, ◌==◌, or_default,
}
use key_cloak_sdk.Values.Json.{Value, undefined, string}

-- The subclasses of `KeycloakError`.
pub data SdkError : Type 0 where
  config auth token_validation admin not_found conflict forbidden transport : SdkError

-- What a thrown object is an instance of. `plain` is an object that is not an `Error`;
-- `too_large` is `ResponseTooLargeError`, and `no_matching_key` is jose's `JWKSNoMatchingKey`.
pub data ErrorClass : Type 0 where
  plain error type_error syntax_error uri_error no_matching_key : ErrorClass
  too_large : ℕ → ErrorClass
  sdk : SdkError → ErrorClass

-- The own data of a thrown object, but for its cause. `status` is `response.status` where that
-- is a number; an HTTP status is a whole number.
pub record Facts : Type 0 where
  pub class : ErrorClass
  pub name : Value
  pub message : Str
  pub code : Value
  pub stack : Option Str
  pub status : Option ℕ
  pub response_data : Value

-- A thrown value: an object with its cause, or a value that is no object.
pub data Thrown : Type 0 where
  other : Value → Thrown
  object : Facts → Thrown → Thrown

-- `cause` left out.
abbrev pub no_cause : Thrown
no_cause = other undefined

-- `e instanceof Error`
unfoldable pub is_error : ErrorClass → Bool
is_error plain = false
is_error _ = true

unfoldable pub is_syntax_error : ErrorClass → Bool
is_syntax_error syntax_error = true
is_syntax_error _ = false

-- `instanceof`, between the SDK's classes: 404, 409 and 403 are admin failures too.
unfoldable pub is_a : SdkError → SdkError → Bool
is_a config config = true
is_a auth auth = true
is_a token_validation token_validation = true
is_a admin admin = true
is_a not_found not_found = true
is_a not_found admin = true
is_a conflict conflict = true
is_a conflict admin = true
is_a forbidden forbidden = true
is_a forbidden admin = true
is_a transport transport = true
is_a _ _ = false

-- `new.target.name`
unfoldable pub class_name : SdkError → Str
class_name config = lit "KeycloakConfigError"
class_name auth = lit "KeycloakAuthError"
class_name token_validation = lit "KeycloakTokenValidationError"
class_name admin = lit "KeycloakAdminError"
class_name not_found = lit "KeycloakNotFoundError"
class_name conflict = lit "KeycloakConflictError"
class_name forbidden = lit "KeycloakForbiddenError"
class_name transport = lit "KeycloakTransportError"

-- `typeof code === 'string'`: only such a code is copied.
unfoldable pub string_code : Value → Value
string_code (string s) = string s
string_code _ = undefined

unfoldable pub copy_of : Facts → Facts
unfolding is_syntax_error string_code
copy_of f = record {
  class = error;
  name = f.name;
  message = if is_syntax_error f.class then lit "invalid JSON (input withheld)" else f.message;
  code = string_code f.code;
  stack = if is_syntax_error f.class then none else f.stack;
  status = none;
  response_data = undefined;
}

-- `scrubCause(cause, depth)`; `none` is `undefined`. A copy whose stack is `none` keeps the one
-- that the engine made for it.
unfoldable pub scrub_cause : Thrown → ℕ → Option Thrown
unfolding is_error copy_of
scrub_cause (other v) depth = none
scrub_cause (object f cause) depth =
    let inner = or_default (scrub_cause cause (depth + 1)) no_cause in
    if not (is_error f.class) || ltb 8 depth then none else some (object (copy_of f) inner)

-- `new C(message, { cause })` for a subclass of `KeycloakError`; no cause is `no_cause`.
unfoldable pub sdk_error : SdkError → Str → Thrown → Thrown
unfolding scrub_cause class_name
sdk_error c message cause =
    object
      (record {
        class = sdk c;
        name = string (class_name c);
        message = message;
        code = undefined;
        stack = none;
        status = none;
        response_data = undefined;
      })
      (or_default (scrub_cause cause 0) no_cause)

-- `mapHttpError(status, message, cause)`
unfoldable pub map_http_error : ℕ → Str → Thrown → Thrown
unfolding sdk_error
map_http_error status message cause =
    if status == 404
    then sdk_error not_found message cause
    else if status == 409
    then sdk_error conflict message cause
    else if status == 403
    then sdk_error forbidden message cause
    else sdk_error admin (lit "HTTP " ++ (show status ++ (lit ": " ++ message))) cause

-- `(e as Error).message` in a template.
unfoldable pub message_text : Thrown → Str
message_text (other v) = lit "undefined"
message_text (object f cause) = f.message
