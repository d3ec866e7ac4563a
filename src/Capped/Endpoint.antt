-- ===== src/Capped/Endpoint.antt =====
-- node/src/token-response-cap.ts, `fetchTokenEndpointBounded`: what openid-client gets.
use mathlib.Core.List.{Memᴰ}
use key_cloak_sdk.Common.{
  ℕ, ◌≤◌, ◌<◌, ◌≡◌, refl, false, some, arith, ◌⊎◌, inl, inr, Bool-cases, length, ltb, leb, ◌||◌,
}
use key_cloak_sdk.Errors.{Thrown}
use key_cloak_sdk.Outcome.{ok, raise}
use key_cloak_sdk.Capped.{
  Stream, fault, rebuilt, fetch_token_endpoint_bounded, token_response_max_bytes,
  response_too_large_error,
}
use key_cloak_sdk.Capped.Laws.{read_capped_lem}

-- A body that comes with a status of 200 to 599 is handed on as its bytes where it is at most a
-- mebibyte, and is the error of a body over the cap where it is longer, or of a failing transport.
pub fetch_token_endpoint_bounded_lem :
    (status : ℕ) (body : Stream)
    → 200 ≤ status
    → status ≤ 599
    → let o = fetch_token_endpoint_bounded status (some body) in
      (length body.bytes ≤ token_response_max_bytes × (o ≡ ok (rebuilt body.bytes)))
      ⊎ ((token_response_max_bytes < length body.bytes
            × (o ≡ raise (response_too_large_error token_response_max_bytes)))
          ⊎ ((e : Thrown) × Memᴰ (fault e) body.events × (o ≡ raise e)))
unfolding fetch_token_endpoint_bounded
fetch_token_endpoint_bounded_lem status body low high =
    let inside : (ltb status 200 || ltb 599 status) ≡ false = ground arith in
    elim (read_capped_lem body token_response_max_bytes) [
      | inr (e, m, q) ↦ inr (inr (e, m, rw (inside, q) refl))
      | inl q ↦ elim (Bool-cases (leb (length body.bytes) token_response_max_bytes)) [
        | inl small ↦ inl (ground arith, rw (inside, q, small) refl)
        | inr large ↦ inr (inl (ground arith, rw (inside, q, large) refl))
      ]
    ]
