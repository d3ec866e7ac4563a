-- ===== src/Tests/Jwks.antt =====
-- The key source after one failure, and two fetches.

use key_cloak_sdk.Capped.{deliver, fault, Stream}
use key_cloak_sdk.Common.{
  ◌≢◌, ltb, min, ◌^◌, ℕ, lit, ◌+◌, ◌*◌, ◌≤◌, ◌<◌, ◌≡◌, refl, true, false, Option, none, some, [],
  ◌∷◌, arith, ◌⊎◌, if◌then◌else◌, length, Str,
}
use key_cloak_sdk.Errors.{sdk_error, SdkError, no_cause, object, no_matching_key, Thrown}
use key_cloak_sdk.Jwks.{
  fresh_state, Rejection, is_no_matching_key, is_last, remaining, rejected, in_window, decide,
  jwks_max_bytes, too_many_bytes, no_keys, has_no_keys, fetch_jwks_bounded,
}
use key_cloak_sdk.Jwks.Backoff.{window_lem, waiters, stale, waiters_lem, after_all, forged_lem}
use key_cloak_sdk.Jwks.Fetch.{fetch_jwks_bounded_lem, IsConstructor}
use key_cloak_sdk.Jwks.Window.{start, sent, IsSpaced, spaced_lem}
use key_cloak_sdk.Outcome.{Outcome, ok, raise}
use key_cloak_sdk.Values.Json.{string, undefined, Value}
use mathlib.Core.List.{Memᴰ}

abbrev refused_token : Rejection
refused_token = record { identity = 4; thrown = sdk_error SdkError.transport [] no_cause }

abbrev unknown_key : Rejection
unknown_key = record {
  identity = 5;
  thrown =
      object
        (record {
          class = no_matching_key;
          name = string (lit "JWKSNoMatchingKey");
          message = lit "no applicable key found";
          code = undefined;
          stack = none;
          status = none;
          response_data = undefined;
        })
        no_cause;
}

abbrev body : Stream
body = record { bytes = 1 ∷ 2 ∷ 3 ∷ []; events = deliver 1 ∷ [] }

abbrev no_json : Str → Option Value
no_json s = none

spaced_lem_example : IsSpaced 100 ((true, 200) ∷ (false, 5) ∷ [])
unfolding decide in_window
spaced_lem_example =
    spaced_lem {window_ms = 100} {now = 200} {last = some 200}
      {before = (true, 200) ∷ (false, 5) ∷ []}
      (sent true 200 200 (sent false 5 5 (start {now = 0}) (omega arith) (omega arith) refl)
        (omega arith) (omega arith) refl)

window_lem_example :
    let delay = min (200 * 2 ^ fresh_state.failures) 5000 in
    let after = rejected false 1000 7 refused_token fresh_state in
    (2 * 1050 < 2 * 1000 + delay → 0 < remaining after 1050)
    × (1000 + delay ≤ 1050 → remaining after 1050 ≡ 0)
unfolding is_no_matching_key is_last sdk_error
window_lem_example = window_lem 1000 7 1050 refused_token fresh_state (refl, refl)

waiters_lem_example :
    (waiters ((false, 1000, 7) ∷ stale ((1001, 8) ∷ [])) refused_token fresh_state
      ≡ rejected false 1000 7 refused_token fresh_state)
    × ((waiters ((true, 1, 2) ∷ []) refused_token fresh_state).failures ≤ fresh_state.failures + 1)
waiters_lem_example =
    waiters_lem 1000 7 ((1001, 8) ∷ []) ((true, 1, 2) ∷ []) refused_token fresh_state

forged_lem_example :
    remaining (after_all ((false, 1, 2, unknown_key) ∷ []) fresh_state) 3 ≤ remaining fresh_state 3
unfolding is_no_matching_key
forged_lem_example = forged_lem ((false, 1, 2, unknown_key) ∷ []) fresh_state 3 (refl, tt)

-- A constructor that keeps the body.
abbrev keeps_body : Str → ℕ → Outcome Str
keeps_body bytes status =
    if ltb status 200 then raise no_cause else if ltb 599 status then raise no_cause else ok bytes

keeps_body-IsConstructor : IsConstructor keeps_body
keeps_body-IsConstructor = record {
  inside = λ bytes status low high a b c. (bytes, ground arith);
  outside = λ bytes status out. (no_cause, ground arith);
}

fetch_jwks_bounded_lem_example :
    let o = fetch_jwks_bounded no_json keeps_body [] 200 (some body) in
    ((length body.bytes ≤ jwks_max_bytes
        × (o ≡ (
            if has_no_keys 200 (no_json body.bytes)
            then raise no_keys
            else keeps_body body.bytes 200)))
      ⊎ ((jwks_max_bytes < length body.bytes × (o ≡ raise too_many_bytes))
          ⊎ ((e : Thrown) × Memᴰ (fault e) body.events × (o ≡ raise e))))
    × ((200 < 200) ⊎ (599 < 200) → (e : Thrown) × (o ≡ raise e))
    × (200 ≤ 200
        → 200 ≤ 599
        → ◌≢◌ {A = ℕ} 200 204
        → ◌≢◌ {A = ℕ} 200 205
        → ◌≢◌ {A = ℕ} 200 304
        → has_no_keys 200 (no_json body.bytes) ≡ false
        → ((e : Thrown) → ¬ Memᴰ (fault e) body.events)
        → length body.bytes ≤ jwks_max_bytes
        → (r : Str) × (o ≡ ok r) × (keeps_body body.bytes 200 ≡ ok r))
fetch_jwks_bounded_lem_example =
    fetch_jwks_bounded_lem no_json keeps_body [] 200 body keeps_body-IsConstructor
