-- ===== src/Admin/Call.antt =====
-- node/src/admin/call.ts: the boundary at which failures become the SDK's exceptions.
pub mod Laws
use key_cloak_sdk.Common.{ℕ, Bool, true, false, Option, none, some, [], Str, lit, if◌then◌else◌}
use key_cloak_sdk.Values.Json.{
  Value, undefined, null, string, object, Members, get, is_nullish, string_or_undefined,
}
use key_cloak_sdk.Errors
use key_cloak_sdk.Errors.{Thrown, other, map_http_error, sdk_error, SdkError, no_cause, is_error}
use key_cloak_sdk.Transport.{is_transport_error}
use key_cloak_sdk.Outcome.{Outcome, ok, raise}
use key_cloak_sdk.Admin.Platform.{Session, M, ◌>>=◌, attempt, throw, lift}

-- `statusOf(err)`
unfoldable pub status_of : Thrown → Option ℕ
status_of (other v) = none
status_of (Errors.object f cause) = f.status

-- `record['errorMessage'] ?? record['error']`
unfoldable pub first_present : Value → Value → Value
first_present undefined w = w
first_present null w = w
first_present v w = v

-- The message in the response data, where there is one.
unfoldable pub data_message : Value → Option Str
data_message (object ms) =
    string_or_undefined (first_present (get ms (lit "errorMessage")) (get ms (lit "error")))
data_message _ = none

-- `messageOf(err)`
unfoldable pub message_of : Thrown → Str
message_of (other v) = lit "admin request failed"
message_of (Errors.object f cause) = elim (data_message f.response_data) [
  | some message ↦ message
  | none ↦ if is_error f.class then f.message else lit "admin request failed"
]

-- The `catch` of `call`.
unfoldable pub converted : Thrown → Thrown
converted err = elim (status_of err) [
  | some status ↦ map_http_error status (message_of err) err
  | none ↦
      if is_transport_error err
      then sdk_error SdkError.transport (lit "admin transport failure") err
      else err
]

-- `call(fn)`
unfoldable pub call : {W A : Type 0} → M W A → M W A
call fn = attempt fn (λ err. throw (converted err))

-- `requireFound(value, message)`
unfoldable pub require_found : Value → Str → Outcome Value
require_found value message =
    if is_nullish value then raise (sdk_error SdkError.not_found message no_cause) else ok value
