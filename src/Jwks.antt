-- ===== src/Jwks.antt =====
-- node/src/jwt.ts, the key source: the JWKS response read up to a cap, the window of the forced
-- refetches, and the backoff after failed fetches. Times are whole milliseconds; a fraction of
-- one is counted in ticks of half a millionth, in which the jitter is a whole number.
pub mod Backoff
pub mod Window
pub mod Fetch
use key_cloak_sdk.Common.{
  ℕ, zero, suc, ◌+◌, ◌-◌, ◌*◌, ◌/◌, ◌%◌, Bool, true, false, Option, none, some, List, [], ◌∷◌, ◌++◌,
  Str, lit, length, max, min, ltb, if◌then◌else◌, show, ◌||◌, ◌&&◌, ◌==◌,
}
use key_cloak_sdk.Values.Json.{Value, Elements, undefined, null, string, array, object, get, nil}
use key_cloak_sdk.Errors
use key_cloak_sdk.Errors.{Thrown, other, ErrorClass, no_matching_key, SdkError, sdk_error, no_cause}
use key_cloak_sdk.Outcome
use key_cloak_sdk.Outcome.{Outcome, ok, raise, ◌>>=◌}
use key_cloak_sdk.Capped.{Stream, Read, read, done, chunk, failed}

-- `JWKS_MAX_BYTES`
abbrev pub jwks_max_bytes : ℕ
jwks_max_bytes = 51200

unfoldable pub too_many_bytes : Thrown
too_many_bytes =
    sdk_error SdkError.transport
      (lit "JWKS response exceeds " ++ (show jwks_max_bytes ++ lit " bytes")) no_cause

unfoldable pub no_keys : Thrown
no_keys = sdk_error SdkError.transport (lit "JWKS response contains no keys") no_cause

-- The loop of `fetchJwksBounded`; a read takes at least one byte, so one round more than there are
-- bytes is enough fuel.
unfoldable pub jwks_loop : ℕ → Str → Stream → Outcome Str
jwks_loop zero out s = raise no_cause
jwks_loop (suc fuel) out s = elim (read s (max 1 (length s.bytes))) [
  | done ↦ ok out
  | failed e ↦ raise e
  | chunk value rest ↦
      let longer = jwks_loop fuel (out ++ value) rest in
      if ltb jwks_max_bytes (length out + length value) then raise too_many_bytes else longer
]

-- `Array.isArray(keys) && keys.length === 0`
unfoldable pub is_empty_array : Value → Bool
is_empty_array (array nil) = true
is_empty_array _ = false

-- `(parsed as { keys?: unknown } | null)?.keys`, where the value has such a member.
unfoldable pub keys_of : Value → Value
keys_of (object ms) = get ms (lit "keys")
keys_of _ = undefined

-- The test of a body that came with status 200; `parsed` is none where `JSON.parse` throws.
unfoldable pub has_no_keys : ℕ → Option Value → Bool
unfolding is_empty_array keys_of
has_no_keys status none = false
has_no_keys status (some parsed) = status == 200 && is_empty_array (keys_of parsed)

-- `parse` is `JSON.parse` of the decoded bytes, and `new_response bytes status` is the constructor
-- `new Response(bytes, { status, … })`, which throws a `RangeError` for a status outside 200 to 599.
module _ {R : Type 0} (parse : Str → Option Value) (new_response : Str → ℕ → Outcome R) where
  -- `fetchJwksBounded` behind `fetch`, for a response with this status and body; a response
  -- without a body, `given`, is handed back itself.
  unfoldable pub fetch_jwks_bounded : R → ℕ → Option Stream → Outcome R
  fetch_jwks_bounded given status none = ok given
  fetch_jwks_bounded given status (some body) = do
    bytes ← jwks_loop (length body.bytes + 1) [] body
    if has_no_keys status (parse bytes) then raise no_keys else new_response bytes status

-- `lastAttempt`; none is `Number.NEGATIVE_INFINITY`.
abbrev pub Attempted : Type 0
Attempted = Option ℕ

-- `now() - lastAttempt < windowMs`. The window is in milliseconds, rounded up, which a
-- difference of whole milliseconds does not notice.
unfoldable pub in_window : ℕ → ℕ → Attempted → Bool
in_window window_ms now none = false
in_window window_ms now (some last) = ltb now (last + window_ms)

-- The decision of the `[customFetch]` of `remoteJwksWithRefetchWindow`: `seen` and `stamped` are its
-- two readings of the clock. The answer is the new `lastAttempt`, or none where it throws.
unfoldable pub decide : ℕ → Bool → ℕ → ℕ → Attempted → Option Attempted
unfolding in_window
decide window_ms forced seen stamped last =
    if forced && in_window window_ms seen last then none else some (some stamped)

-- The ticks of a millisecond.
abbrev pub ticks : ℕ
ticks = 2000000

-- `0.5 + Number(process.hrtime.bigint() % 1_000_000n) / 2_000_000`, in ticks of a millisecond.
unfoldable pub jitter : ℕ → ℕ
jitter nanos = 1000000 + nanos % 1000000

unfoldable pub power_of_two : ℕ → ℕ
power_of_two zero = 1
power_of_two (suc n) = 2 * power_of_two n

-- `Math.min(FAILURE_BACKOFF_BASE_MS * 2 ** (failures - 1), FAILURE_BACKOFF_CAP_MS)`
unfoldable pub delay_ms : ℕ → ℕ
unfolding power_of_two
delay_ms failures = min (200 * power_of_two (failures - 1)) 5000

-- The variables of `withFetchFailureBackoff`. `retry_at` is in ticks; `last_counted` names the
-- failure by its identity, none is `undefined`.
pub record State : Type 0 where
  pub failures : ℕ
  pub retry_at : Option ℕ
  pub last_counted : Option ℕ

abbrev pub fresh_state : State
fresh_state = record { failures = 0; retry_at = none; last_counted = none }

-- What the wrapped key source was rejected with: the thrown value, and the identity of the object,
-- by which `!==` tells it from others.
pub record Rejection : Type 0 where
  pub identity : ℕ
  pub thrown : Thrown

-- `e instanceof joseErrors.JWKSNoMatchingKey`
unfoldable pub is_no_matching_key : Thrown → Bool
is_no_matching_key (other v) = false
is_no_matching_key (Errors.object f cause) = elim f.class [ no_matching_key ↦ true | _ ↦ false ]

unfoldable pub is_last : ℕ → Option ℕ → Bool
is_last id none = false
is_last id (some last) = id == last

-- `remainingMs()`, in ticks.
unfoldable pub remaining : State → ℕ → ℕ
remaining s now = elim s.retry_at [ none ↦ 0 | some t ↦ t - now * ticks ]

-- A number below 100 in two digits.
unfoldable pub two_digits : ℕ → Str
two_digits n = if ltb n 10 then lit "0" ++ show n else show n

-- `(remaining / 1000).toFixed(2)`: a tie between two hundredths is rounded up.
unfoldable pub seconds_text : ℕ → Str
unfolding two_digits
seconds_text left =
    let hundredths = (left + 5 * ticks) / (10 * ticks) in
    show (hundredths / 100) ++ (lit "." ++ two_digits (hundredths % 100))

-- The key source up to the call of `remote`: an exception while the backoff lasts.
unfoldable pub enter : State → ℕ → Outcome (Unit {0})
unfolding remaining seconds_text
enter s now =
    if ltb 0 (remaining s now)
    then raise (
        sdk_error SdkError.transport
          (lit "JWKS fetch backing off after "
            ++ (show s.failures
                ++ (lit " consecutive failures (retry in "
                    ++ (seconds_text (remaining s now) ++ lit "s)"))))
          no_cause)
    else ok tt

-- The key source behind a call of `remote` that gave a key.
unfoldable pub resolved : State → State
resolved s = record s { failures = 0; retry_at = none }

-- The `catch`: `fresh` is `remote.fresh`, `now` and `nanos` are the readings of the clocks.
unfoldable pub rejected : Bool → ℕ → ℕ → Rejection → State → State
unfolding resolved is_no_matching_key is_last jitter delay_ms
rejected fresh now nanos e s =
    if fresh
    then resolved s
    else if is_no_matching_key e.thrown || is_last e.identity s.last_counted
    then s
    else record {
      failures = s.failures + 1;
      retry_at = some (now * ticks + delay_ms (s.failures + 1) * jitter nanos);
      last_counted = some e.identity;
    }
