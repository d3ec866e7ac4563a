-- ===== src/Transport.antt =====
-- node/src/transport.ts: which failures are failures of the transport.
pub mod Laws
use key_cloak_sdk.Common.{
  Bool, true, false, ◌||◌, ◌&&◌, not, Option, none, some, List, [], ◌∷◌, Str, lit, str_eq, includes,
}
use key_cloak_sdk.Values.Json.{Value, undefined, null, string, is_nullish, string_or_undefined}
use key_cloak_sdk.Errors.{Thrown, other, object, Facts, ErrorClass, type_error}

-- `TRANSPORT_CODES`
unfoldable pub transport_codes : List Str
transport_codes =
    lit "ECONNREFUSED"
    ∷ lit "ECONNRESET"
    ∷ lit "EHOSTUNREACH"
    ∷ lit "ENETUNREACH"
    ∷ lit "EPIPE"
    ∷ lit "ENOTFOUND"
    ∷ lit "EAI_AGAIN"
    ∷ lit "ETIMEDOUT"
    ∷ lit "UND_ERR_CONNECT_TIMEOUT"
    ∷ lit "UND_ERR_HEADERS_TIMEOUT"
    ∷ lit "UND_ERR_SOCKET"
    ∷ lit "CERT_HAS_EXPIRED"
    ∷ lit "DEPTH_ZERO_SELF_SIGNED_CERT"
    ∷ lit "UNABLE_TO_VERIFY_LEAF_SIGNATURE"
    ∷ lit "SELF_SIGNED_CERT_IN_CHAIN"
    ∷ lit "ERR_TLS_CERT_ALTNAME_INVALID"
    ∷ []

-- `v === text`
unfoldable pub is_text : Value → Str → Bool
is_text (string s) t = str_eq s t
is_text _ t = false

unfoldable pub is_type_error : ErrorClass → Bool
is_type_error type_error = true
is_type_error _ = false

-- `cause !== undefined && cause !== null`
unfoldable pub has_cause : Thrown → Bool
has_cause (other v) = not (is_nullish v)
has_cause (object f c) = true

-- `code !== undefined && TRANSPORT_CODES.has(code)`, for the code where it is a text.
unfoldable pub is_transport_code : Option Str → Bool
is_transport_code none = false
is_transport_code (some code) = includes transport_codes code

-- `typeof cause?.code === 'string' ? cause.code : undefined`
unfoldable pub code_of : Thrown → Option Str
code_of (other v) = none
code_of (object f c) = string_or_undefined f.code

-- `isTransportError(err)`
unfoldable pub is_transport_error : Thrown → Bool
is_transport_error (other v) = false
is_transport_error (object f cause) =
    is_text f.name (lit "AbortError")
    || is_text f.name (lit "TimeoutError")
    || (is_type_error f.class && has_cause cause)
    || is_transport_code (string_or_undefined f.code)
    || is_transport_code (code_of cause)
